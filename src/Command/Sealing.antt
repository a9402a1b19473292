-- ===== src/Command/Sealing.antt =====
-- main.go: runSeal and runUnseal, from the flags to what is printed.
pub mod Opens
use secretproxy.Prelude.{
  ℕ, zero, suc, ◌+◌, ◌-◌, ◌*◌, ◌/◌, ◌%◌, ◌^◌, ◌≤◌, ◌<◌, code, String, ◌≡◌, refl, sym, ap, ◌∙◌,
  ◌≡⟨◌⟩◌, ◌∎, ◌≢◌, ◌↔◌, ◌⊎◌, inl, inr, Bool, true, false, not, ◌&&◌, ◌||◌, Option, none, some, List,
  [], ◌∷◌, ◌++◌, append-nil, append_assoc, arith, ltb, leb, ◌==◌, if◌then◌else◌, ==_iff, Bool-cases,
  Option-cases, &&-eq-true, length, get_elem?, is_empty, length-append, any, all, last_or, All, Any,
  All-append, last_or-append, Result, ok, err, Check, ◌>>=◌, ◌>>◌, refuse_if, wrap, >>=-eq-ok,
  Result-cases, Ensures, Ensures->>=, Ensures-ok,
}
use secretproxy.Text.{Str, codes, Unicode, str_eq, trim_space}
use secretproxy.Seal.{BearerAuth, NoAuth, no_auth, InjectHeader, Secret}
use secretproxy.Seal.Envelope.{Lib, Crypto, SealFailure, OpenError, hash_bearer, seal, open_seal}
use secretproxy.Command.{
  System, LoadError, ResolveKeyError, split_csv, load_private_key, resolve_public_key,
}

pub record SealFlags : Type 0 where
  pub token : Str
  pub auth_bearer : Str
  pub without_auth : Bool
  pub allow_host : Str
  pub allow_host_pattern : Str
  pub allow_path_prefix : Str
  pub allow_path_pattern : Str
  pub allow_method : Str
  pub processor : Str
  pub format : Str
  pub header_name : Str
  pub allowed_format : Str
  pub allowed_header_name : Str
  pub public_key : Str
  pub public_key_url : Str
  pub name : Str
  pub euid : Str

pub data SealCommandError : Type 0 where
  token_flag_required unsupported_processor auth_flags_exclusive auth_flag_required :
      SealCommandError
  no_public_key : ResolveKeyError → SealCommandError
  not_sealed : SealFailure → SealCommandError

-- The identifier and the name go to standard error, the blob to standard output.
pub record Printed : Type 0 where
  pub euid : Str
  pub name : Str
  pub blob : Str

abbrev pub bearer_of : Crypto → SealFlags → Option BearerAuth
bearer_of c f =
    if f.without_auth
    then none
    else if is_empty f.auth_bearer
    then none
    else some (record { digest = hash_bearer c f.auth_bearer })

module _ ⦃u : Unicode⦄ where
  abbrev pub secret_of : Crypto → SealFlags → Secret
  secret_of c f = record {
    bearer_auth = bearer_of c f;
    no_auth = if f.without_auth then some no_auth else none;
    inject_header = some (record {
      token = f.token;
      format = f.format;
      header_name = f.header_name;
      allowed_formats = split_csv f.allowed_format;
      allowed_header_names = split_csv f.allowed_header_name;
    });
    allowed_hosts = split_csv f.allow_host;
    allowed_host_pattern = f.allow_host_pattern;
    allowed_path_prefixes = split_csv f.allow_path_prefix;
    allowed_path_pattern = f.allow_path_pattern;
    allowed_methods = split_csv f.allow_method;
    name = f.name;
    euid = f.euid;
  }

  abbrev pub printed : Result SealFailure Str × Secret → Result SealCommandError Printed
  printed (ok blob, s) = ok (record { euid = s.euid; name = s.name; blob = blob })
  printed (err e, s) = err (not_sealed e)

  unfoldable pub run_seal :
      Lib → System → SealFlags → (euid_bytes box_bytes : Str) → Result SealCommandError Printed
  run_seal lib os f euid_bytes box_bytes = do
    refuse_if (is_empty f.token) token_flag_required
    refuse_if (not (str_eq f.processor (codes "inject-header"))) unsupported_processor
    refuse_if (not (is_empty f.auth_bearer) && f.without_auth) auth_flags_exclusive
    key ← wrap no_public_key (resolve_public_key os f.public_key f.public_key_url)
    refuse_if (not f.without_auth && is_empty f.auth_bearer) auth_flag_required
    printed (seal lib (secret_of lib.crypto f) key euid_bytes box_bytes)

  pub data UnsealError : Type 0 where
    no_private_key : LoadError → UnsealError
    stdin_failed : UnsealError
    not_opened : OpenError → UnsealError

  abbrev pub blob_given : Str → Option Str → Result UnsealError Str
  blob_given token stdin =
      if not (is_empty (trim_space token))
      then ok (trim_space token)
      else elim stdin [ none ↦ err stdin_failed | some raw ↦ ok (trim_space raw) ]

  -- The secret that is printed; standard input is `none` if it cannot be read.
  unfoldable run_unseal :
      Lib → System → (stdin : Option Str) → (token file hex : Str) → Result UnsealError Secret
  run_unseal lib os stdin token file hex = do
    priv ← wrap no_private_key (load_private_key os file hex)
    blob ← blob_given token stdin
    (s, used_fallback) ← wrap not_opened (open_seal lib blob priv [])
    ok s
