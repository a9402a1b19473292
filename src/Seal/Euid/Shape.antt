-- ===== src/Seal/Euid/Shape.antt =====
-- The identifier is a UUID of version 4, and keeps the randomness of the other bits.
use secretproxy.Prelude.{
  ℕ, zero, suc, ◌+◌, ◌/◌, ◌%◌, ◌≤◌, ◌<◌, ◌≡◌, refl, ap, Bool, true, ◌&&◌, Bool-cases, inl, inr,
  some, [], ◌∷◌, arith, ◌==◌, ==_iff, length, get_elem?, All,
}
use secretproxy.Text.{Str}
use secretproxy.Encoding.Hex
use secretproxy.Encoding.Hex.{IsByte, hex_digit}
use secretproxy.Seal.Euid.{version_byte, variant_byte, new_euid}

-- A test that each of the first numbers passes.
pass_up_to : (ℕ → Bool) → ℕ → Bool
pass_up_to test zero = true
pass_up_to test (suc last) = pass_up_to test last && test last

pass_up_to_lem :
    (test : ℕ → Bool) (size c : ℕ) → c < size → pass_up_to test size ≡ true → test c ≡ true
unfolding pass_up_to
pass_up_to_lem test zero c below passed = absurd (omega arith)
pass_up_to_lem test (suc last) c below passed = elim (Bool-cases (c == last)) [
  | inl same ↦ rw ((==_iff c last).0 same) (ground arith)
  | inr other ↦ pass_up_to_lem test last c (ground arith) (ground arith)
]

version_table : pass_up_to (λ b. version_byte b == 64 + b % 16) 256 ≡ true
unfolding pass_up_to version_byte
version_table = refl

variant_table : pass_up_to (λ b. variant_byte b == 128 + b % 64) 256 ≡ true
unfolding pass_up_to variant_byte
variant_table = refl

-- The masks set the version and the variant, and leave the lower bits.
version_byte_lem : (b : ℕ) → b < 256 → version_byte b ≡ 64 + b % 16
version_byte_lem b h = (==_iff _ _).0 (pass_up_to_lem _ 256 b h version_table)

variant_byte_lem : (b : ℕ) → b < 256 → variant_byte b ≡ 128 + b % 64
variant_byte_lem b h = (==_iff _ _).0 (pass_up_to_lem _ 256 b h variant_table)

-- 8-4-4-4-12, version 4, variant 8, 9, a or b.
pub record IsUuid4 (t : Str) : Type 0 where
  pub size : length t ≡ 36
  pub dash_8 : get_elem? t 8 ≡ some b'-'
  pub dash_13 : get_elem? t 13 ≡ some b'-'
  pub dash_18 : get_elem? t 18 ≡ some b'-'
  pub dash_23 : get_elem? t 23 ≡ some b'-'
  pub version : get_elem? t 14 ≡ some b'4'
  pub variant : (d : ℕ) × (get_elem? t 19 ≡ some (hex_digit d)) × (8 ≤ d) × (d ≤ 11)

version_digit : (b : ℕ) → b < 256 → hex_digit (version_byte b / 16) ≡ b'4'
unfolding hex_digit
version_digit b h = rw (version_byte_lem b h) (ground arith)

-- Sixteen random bytes always give an identifier, and it is a UUID of version 4.
pub new_euid-IsUuid4 :
    (random : Str)
    → length random ≡ 16
    → All IsByte random
    → (t : Str) × (new_euid random ≡ some t) × IsUuid4 t
unfolding new_euid Hex.encode
new_euid-IsUuid4
      (b0 ∷ b1 ∷ b2 ∷ b3 ∷ b4 ∷ b5 ∷ b6 ∷ b7 ∷ b8 ∷ b9 ∷ b10 ∷ b11 ∷ b12 ∷ b13 ∷ b14 ∷ b15 ∷ []) n
      h =
    (
      _,
      refl,
      record {
        size = refl;
        dash_8 = refl;
        dash_13 = refl;
        dash_18 = refl;
        dash_23 = refl;
        version = ap some (version_digit b6 h.1.1.1.1.1.1.0);
        variant = (
          variant_byte b8 / 16,
          refl,
          rw (variant_byte_lem b8 h.1.1.1.1.1.1.1.1.0) (omega arith),
          rw (variant_byte_lem b8 h.1.1.1.1.1.1.1.1.0) (omega arith),
        );
      },
    )
new_euid-IsUuid4 _ n h = absurd (omega arith)
