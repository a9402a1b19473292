-- ===== src/Seal/Euid.antt =====
-- seal.go: NewEUID. The sixteen random bytes are an argument.
pub mod Shape
use secretproxy.Prelude.{
  ℕ, zero, suc, ◌+◌, ◌-◌, ◌*◌, ◌/◌, ◌%◌, ◌^◌, ◌≤◌, ◌<◌, code, String, ◌≡◌, refl, sym, ap, ◌∙◌,
  ◌≡⟨◌⟩◌, ◌∎, ◌≢◌, ◌↔◌, ◌⊎◌, inl, inr, Bool, true, false, not, ◌&&◌, ◌||◌, Option, none, some, List,
  [], ◌∷◌, ◌++◌, append-nil, append_assoc, arith, ltb, leb, ◌==◌, if◌then◌else◌, ==_iff, Bool-cases,
  Option-cases, &&-eq-true, length, is_empty, length-append, any, all, last_or, All, Any,
  All-append, last_or-append, Result, ok, err, Check, ◌>>=◌, ◌>>◌, refuse_if, wrap, >>=-eq-ok,
  Result-cases,
}
use Prim.Native.Nat.{bit_and, bit_or}
use secretproxy.Text.{Str}
use secretproxy.Encoding.Hex

-- `(b & 0x0f) | 0x40`.
pub version_byte : ℕ → ℕ
version_byte b = bit_or (bit_and b 0x0f) 0x40

-- `(b & 0x3f) | 0x80`.
pub variant_byte : ℕ → ℕ
variant_byte b = bit_or (bit_and b 0x3f) 0x80

abbrev dash : Str
dash = b'-' ∷ []

-- `none` is an error of the source of randomness, or other than sixteen bytes from it.
unfoldable pub new_euid : List ℕ → Option Str
unfolding version_byte variant_byte
new_euid
      (b0 ∷ b1 ∷ b2 ∷ b3 ∷ b4 ∷ b5 ∷ b6 ∷ b7 ∷ b8 ∷ b9 ∷ b10 ∷ b11 ∷ b12 ∷ b13 ∷ b14 ∷ b15 ∷ []) =
    some (
      Hex.encode (b0 ∷ b1 ∷ b2 ∷ b3 ∷ [])
      ++ (dash
          ++ (Hex.encode (b4 ∷ b5 ∷ [])
              ++ (dash
                  ++ (Hex.encode (version_byte b6 ∷ b7 ∷ [])
                      ++ (dash
                          ++ (Hex.encode (variant_byte b8 ∷ b9 ∷ [])
                              ++ (dash
                                  ++ Hex.encode (b10 ∷ b11 ∷ b12 ∷ b13 ∷ b14 ∷ b15 ∷ [])))))))))
new_euid _ = none
