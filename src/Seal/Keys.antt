-- ===== src/Seal/Keys.antt =====
-- seal.go: the hexadecimal form of keys. The text of an error is not modelled, its cause is.
pub mod RoundTrip
use secretproxy.Prelude.{
  ℕ, zero, suc, ◌+◌, ◌-◌, ◌*◌, ◌/◌, ◌%◌, ◌^◌, ◌≤◌, ◌<◌, code, String, ◌≡◌, refl, sym, ap, ◌∙◌,
  ◌≡⟨◌⟩◌, ◌∎, ◌≢◌, ◌↔◌, ◌⊎◌, inl, inr, Bool, true, false, not, ◌&&◌, ◌||◌, Option, none, some, List,
  [], ◌∷◌, ◌++◌, append-nil, append_assoc, arith, ltb, leb, ◌==◌, if◌then◌else◌, ==_iff, Bool-cases,
  Option-cases, &&-eq-true, length, is_empty, length-append, any, all, last_or, All, Any,
  All-append, last_or-append, Result, ok, err, Check, ◌>>=◌, ◌>>◌, refuse_if, wrap, >>=-eq-ok,
  Result-cases,
}
use secretproxy.Text.{Str, Unicode, trim_space, is_ascii, is_space, trim_left, trim_right}
use secretproxy.Encoding.Hex
use secretproxy.Seal.{key_len, PrivateKey, PublicKey}

pub data KeyError : Type 0 where
  invalid_hex : KeyError
  wrong_length : ℕ → KeyError

pub private_hex : PrivateKey → Str
private_hex k = Hex.encode k.bytes

unfoldable pub public_hex : PublicKey → Str
public_hex k = Hex.encode k.bytes

-- `if len(raw) != KeyLen { … }` behind the decoder.
abbrev pub of_length : Option Str → Result KeyError Str
of_length none = err invalid_hex
of_length (some raw) = if length raw == key_len then ok raw else err (wrong_length (length raw))

module _ ⦃u : Unicode⦄ where
  unfoldable pub parse_private_key : Str → Result KeyError PrivateKey
  parse_private_key s = do raw ← of_length (Hex.decode (trim_space s)); ok (record { bytes = raw })

  unfoldable pub parse_public_key : Str → Result KeyError PublicKey
  parse_public_key s = do raw ← of_length (Hex.decode (trim_space s)); ok (record { bytes = raw })

  -- os.ReadFile is a parameter: the file's bytes, or its error.
  unfoldable pub read_private_key_file :
      (Str → Option Str) → Str → Result (Option KeyError) PrivateKey
  read_private_key_file read_file path = elim (read_file path) [
    | none ↦ err none
    | some text ↦ wrap some (parse_private_key text)
  ]
