-- ===== src/Seal.antt =====
-- internal/seal/seal.go: the sealed secret and its kinds. The rules of Validate, the anchors of
-- patterns, the keys and the envelope are the modules below.
pub mod Regex
pub mod Anchors
pub mod Validate
pub mod Keys
pub mod Euid
pub mod Envelope
use secretproxy.Prelude.{
  ℕ, zero, suc, ◌+◌, ◌-◌, ◌*◌, ◌/◌, ◌%◌, ◌^◌, ◌≤◌, ◌<◌, code, String, ◌≡◌, refl, sym, ap, ◌∙◌,
  ◌≡⟨◌⟩◌, ◌∎, ◌≢◌, ◌↔◌, ◌⊎◌, inl, inr, Bool, true, false, not, ◌&&◌, ◌||◌, Option, none, some, List,
  [], ◌∷◌, ◌++◌, append-nil, append_assoc, arith, ltb, leb, ◌==◌, if◌then◌else◌, ==_iff, Bool-cases,
  Option-cases, &&-eq-true, length, is_empty, length-append, any, all, last_or, All, Any,
  All-append, last_or-append, Result, ok, err, Check, ◌>>=◌, ◌>>◌, refuse_if, wrap, >>=-eq-ok,
  Result-cases,
}
use secretproxy.Text.{Str, codes}

abbrev pub key_len : ℕ
key_len = 32

-- `[KeyLen]byte`: the functions that build a key give it `key_len` bytes.
pub record PrivateKey : Type 0 where
  pub bytes : Str

pub record PublicKey : Type 0 where
  pub bytes : Str

pub record BearerAuth : Type 0 where
  pub digest : Str

pub data NoAuth : Type 0 where
  no_auth : NoAuth

pub record InjectHeader : Type 0 where
  pub token : Str
  pub format : Str
  pub header_name : Str
  pub allowed_formats : List Str
  pub allowed_header_names : List Str

-- A nil pointer is `none`, a nil or empty slice `[]`.
pub record Secret : Type 0 where
  pub bearer_auth : Option BearerAuth
  pub no_auth : Option NoAuth
  pub inject_header : Option InjectHeader
  pub allowed_hosts : List Str
  pub allowed_host_pattern : Str
  pub allowed_path_prefixes : List Str
  pub allowed_path_pattern : Str
  pub allowed_methods : List Str
  pub name : Str
  pub euid : Str

abbrev pub is_some {ℓ} : {A : Type ℓ} → Option A → Bool
is_some none = false
is_some (some a) = true

unfoldable pub auth_kind : Secret → Str
auth_kind s =
    if is_some s.bearer_auth
    then codes "bearer_auth"
    else if is_some s.no_auth
    then codes "no_auth"
    else codes "none"

unfoldable pub processor_kind : Secret → Str
processor_kind s = if is_some s.inject_header then codes "inject_header" else codes "none"
