-- ===== src/Command.antt =====
-- cmd/secret-proxy/main.go: the helpers that read settings and keys. Flag parsing, printing, sockets
-- and signals are not modelled: a command is a function of its flags and of the system it runs on.
pub mod Sealing
pub mod Numbers
pub mod Serving
pub mod Shutdown
pub mod Generating
pub mod Requesting
use secretproxy.Prelude.{
  ℕ, zero, suc, ◌+◌, ◌-◌, ◌*◌, ◌/◌, ◌%◌, ◌^◌, ◌≤◌, ◌<◌, code, String, ◌≡◌, refl, sym, ap, ◌∙◌,
  ◌≡⟨◌⟩◌, ◌∎, ◌≢◌, ◌↔◌, ◌⊎◌, inl, inr, Bool, true, false, not, ◌&&◌, ◌||◌, Option, none, some, List,
  [], ◌∷◌, ◌++◌, append-nil, append_assoc, arith, ltb, leb, ◌==◌, if◌then◌else◌, ==_iff, Bool-cases,
  Option-cases, &&-eq-true, length, get_elem?, is_empty, length-append, any, all, last_or, All, Any,
  All-append, last_or-append, Result, ok, err, Check, ◌>>=◌, ◌>>◌, refuse_if, wrap, >>=-eq-ok,
  Result-cases, Ensures, Ensures->>=, Ensures-ok,
}
use secretproxy.Text.{Str, codes, Unicode, str_eq, to_lower, trim_space, split}
use secretproxy.Seal.{PrivateKey, PublicKey}
use secretproxy.Seal.Keys.{KeyError, parse_private_key, parse_public_key, read_private_key_file}
use secretproxy.Proxy.Server.{Url}

-- The environment, where an unset variable is empty; a file's bytes; url.Parse; and http.Client.Get:
-- the status and the body, where `none` is an error.
pub record System : Type 0 where
  pub getenv : Str → Str
  pub read_file : Str → Option Str
  pub parse_url : Str → Option Url
  pub fetch : Str → Option (ℕ × Option Str)

pub data SettingError : Type 0 where
  bad_number bad_duration : (key value : Str) → SettingError

pub data LoadError : Type 0 where
  private_key_required : LoadError
  key_file : Option KeyError → LoadError
  key_text : KeyError → LoadError

pub data ResolveKeyError : Type 0 where
  bad_key_url key_url_not_https fetch_failed body_failed public_key_required : ResolveKeyError
  key_url_status : ℕ → ResolveKeyError
  bad_public_key : KeyError → ResolveKeyError

unfoldable pub env_or : System → Str → Str → Str
env_or os key fallback = if is_empty (os.getenv key) then fallback else os.getenv key

unfoldable pub default_listen_addr : System → Str
default_listen_addr os =
    if not (is_empty (os.getenv (codes "SECRET_PROXY_LISTEN_ADDRESS")))
    then os.getenv (codes "SECRET_PROXY_LISTEN_ADDRESS")
    else if not (is_empty (os.getenv (codes "PORT")))
    then b':' ∷ os.getenv (codes "PORT")
    else codes ":8443"

module _ ⦃u : Unicode⦄ where
  unfoldable pub non_blank : List Str → List Str
  non_blank [] = []
  non_blank (p ∷ parts) =
      let out = non_blank parts in if is_empty (trim_space p) then out else trim_space p ∷ out

  unfoldable pub split_csv : Str → List Str
  split_csv s = if is_empty s then [] else non_blank (split b',' s)

  unfoldable pub env_bool : System → Str → Bool
  env_bool os key =
      let v = to_lower (os.getenv key) in
      str_eq v (codes "1") || str_eq v (codes "true") || str_eq v (codes "yes")

  -- envInt64 and envDuration, by strconv.ParseInt and time.ParseDuration.
  unfoldable pub env_parsed {ℓ} :
      {A : Type ℓ}
      → (Str → Str → SettingError)
      → System
      → (Str → Option A)
      → Str
      → A
      → Result SettingError A
  env_parsed bad os parse key fallback =
      if is_empty (trim_space (os.getenv key))
      then ok fallback
      else elim (parse (trim_space (os.getenv key))) [
        | none ↦ err (bad key (trim_space (os.getenv key)))
        | some a ↦ ok a
      ]

  unfoldable pub load_private_key : System → (file hex : Str) → Result LoadError PrivateKey
  load_private_key os file hex =
      if not (is_empty file)
      then wrap key_file (read_private_key_file os.read_file file)
      else if not (is_empty hex)
      then wrap key_text (parse_private_key hex)
      else err private_key_required

  unfoldable pub load_previous_private_key :
      System → (file hex : Str) → Result LoadError (Option PrivateKey)
  load_previous_private_key os file hex =
      if not (is_empty file)
      then wrap key_file (read_private_key_file os.read_file file) >>= (λ k. ok (some k))
      else if not (is_empty hex)
      then wrap key_text (parse_private_key hex) >>= (λ k. ok (some k))
      else ok none

  abbrev fetched_body : Option (ℕ × Option Str) → Result ResolveKeyError Str
  fetched_body none = err fetch_failed
  fetched_body (some (status, body)) =
      if not (status == 200)
      then err (key_url_status status)
      else elim body [ none ↦ err body_failed | some raw ↦ ok (trim_space raw) ]

  unfoldable pub fetch_key : System → Str → Result ResolveKeyError Str
  fetch_key os url = elim (os.parse_url url) [
    | none ↦ err bad_key_url
    | some u ↦
        if not (str_eq u.scheme (codes "https"))
        then err key_url_not_https
        else fetched_body (os.fetch url)
  ]

  abbrev given_key : System → Str → Str
  given_key os hex = if is_empty hex then os.getenv (codes "SECRET_PROXY_PUBLIC_KEY") else hex

  unfoldable pub resolve_public_key : System → (hex url : Str) → Result ResolveKeyError PublicKey
  resolve_public_key os hex url = do
    found ←
        if is_empty (given_key os hex) && not (is_empty url)
        then fetch_key os url
        else ok (given_key os hex)
    refuse_if (is_empty found) public_key_required
    wrap bad_public_key (parse_public_key found)
