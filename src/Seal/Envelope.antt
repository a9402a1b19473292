-- ===== src/Seal/Envelope.antt =====
-- seal.go: Seal, Open and the digest of a bearer. The box of golang.org/x/crypto, SHA-256, the JSON
-- codec of Secret and the source of randomness are parameters.
pub mod Opening
pub mod Sealing
use secretproxy.Prelude.{
  ℕ, zero, suc, ◌+◌, ◌-◌, ◌*◌, ◌/◌, ◌%◌, ◌^◌, ◌≤◌, ◌<◌, code, String, ◌≡◌, refl, sym, ap, ◌∙◌,
  ◌≡⟨◌⟩◌, ◌∎, ◌≢◌, ◌↔◌, ◌⊎◌, inl, inr, Bool, true, false, not, ◌&&◌, ◌||◌, Option, none, some, List,
  [], ◌∷◌, ◌++◌, append-nil, append_assoc, arith, ltb, leb, ◌==◌, if◌then◌else◌, ==_iff, Bool-cases,
  Option-cases, &&-eq-true, length, is_empty, length-append, any, all, last_or, All, Any,
  All-append, last_or-append, Result, ok, err, Check, ◌>>=◌, ◌>>◌, refuse_if, wrap, >>=-eq-ok,
  Result-cases,
}
use mathlib.Core.Option
use secretproxy.Text.{Str, str_eq}
use secretproxy.Encoding.Base64
use secretproxy.Seal.{PrivateKey, PublicKey, BearerAuth, Secret}
use secretproxy.Seal.Regex.{Engine}
use secretproxy.Seal.Validate.{SealError, MapOrder, validate}
use secretproxy.Seal.Euid.{new_euid}

-- `none` is an error, or a box that does not open.
pub record Crypto : Type 0 where
  pub public_of : PrivateKey → PublicKey
  pub seal_anonymous : (message : Str) → PublicKey → (random : Str) → Option Str
  pub open_anonymous : (sealed : Str) → PublicKey → PrivateKey → Option Str
  pub sha256 : Str → Str

-- `unmarshal` is the decoder that refuses unknown fields.
pub record Codec : Type 0 where
  pub marshal : Secret → Option Str
  pub unmarshal : Str → Option Secret

pub record Lib : Type 0 where
  pub crypto : Crypto
  pub codec : Codec
  pub engine : Engine
  pub map_order : MapOrder

abbrev sha256_size : ℕ
sha256_size = 32

-- subtle.ConstantTimeCompare sees texts of one length here, and answers their equality.
unfoldable pub verify_bearer : Crypto → BearerAuth → Str → Bool
verify_bearer c b presented = elim (Base64.decode b.digest) [
  | none ↦ false
  | some want ↦ length want == sha256_size && str_eq (c.sha256 presented) want
]

unfoldable pub hash_bearer : Crypto → Str → Str
hash_bearer c token = Base64.encode (c.sha256 token)

unfoldable pub try_open : Crypto → Str → PrivateKey → Option Str
try_open c raw priv = c.open_anonymous raw (c.public_of priv) priv

-- The loop over the fallback keys.
unfoldable pub open_fallback : Crypto → Str → List PrivateKey → Option Str
open_fallback c raw [] = none
open_fallback c raw (fb ∷ fallback) = elim (try_open c raw fb) [
  | some plain ↦ some plain
  | none ↦ open_fallback c raw fallback
]

pub data OpenError : Type 0 where
  base64_decode decryption_failed unmarshal_failed : OpenError
  refused : SealError → OpenError

-- The plain text, and whether a key other than the first opened it.
unfoldable pub open_plain : Crypto → Str → PrivateKey → List PrivateKey → Option (Str × Bool)
open_plain c raw priv fallback = elim (try_open c raw priv) [
  | some plain ↦ some (plain, false)
  | none ↦ Option.map (λ plain. (plain, true)) (open_fallback c raw fallback)
]

abbrev pub or_error {ℓ κ} : {E : Type ℓ} {A : Type κ} → E → Option A → Result E A
or_error e none = err e
or_error e (some a) = ok a

module _ (lib : Lib) where
  unfoldable pub open_seal : Str → PrivateKey → List PrivateKey → Result OpenError (Secret × Bool)
  open_seal blob priv fallback = do
    raw ← or_error base64_decode (Base64.decode blob)
    (plain, used_fallback) ← or_error decryption_failed (open_plain lib.crypto raw priv fallback)
    s ← or_error unmarshal_failed (lib.codec.unmarshal plain)
    wrap refused (validate lib.engine lib.map_order s)
    ok (s, used_fallback)

pub data SealFailure : Type 0 where
  invalid : SealError → SealFailure
  generate_euid marshal_failed box_failed : SealFailure

-- The secret's own identifier, or a generated one.
abbrev pub stamp : Str → List ℕ → Result SealFailure Str
stamp [] random = or_error generate_euid (new_euid random)
stamp (c ∷ euid) random = ok (c ∷ euid)

-- The last two lines of Seal.
abbrev pub finish_seal : Secret → Result SealFailure (Str × Str) → Result SealFailure Str × Secret
finish_seal s (ok (euid, sealed)) = (ok (Base64.encode sealed), record s { euid = euid })
finish_seal s (err e) = (err e, s)

module _ (lib : Lib) where
  -- The body of Seal up to its last two lines: the identifier and the sealed bytes.
  unfoldable pub seal_body :
      Secret → PublicKey → (euid_bytes box_bytes : Str) → Result SealFailure (Str × Str)
  seal_body s pub_key euid_bytes box_bytes = do
    wrap invalid (validate lib.engine lib.map_order s)
    euid ← stamp s.euid euid_bytes
    body ← or_error marshal_failed (lib.codec.marshal (record s { euid = euid }))
    sealed ← or_error box_failed (lib.crypto.seal_anonymous body pub_key box_bytes)
    ok (euid, sealed)

  -- The result, and the caller's secret afterwards.
  unfoldable pub seal :
      Secret → PublicKey → (euid_bytes box_bytes : Str) → Result SealFailure Str × Secret
  seal s pub_key euid_bytes box_bytes = finish_seal s (seal_body s pub_key euid_bytes box_bytes)
