-- ===== src/Encoding/Base64/Alphabet.antt =====
-- What holds of every symbol holds of the whole encoded text.
use secretproxy.Prelude.{ℕ, ◌+◌, ◌*◌, ◌/◌, ◌%◌, ◌<◌, ◌≢◌, [], ◌∷◌, refl, arith, All}
use secretproxy.Text.{Str}
use secretproxy.Encoding.Hex.{IsByte}
use secretproxy.Encoding.Base64.{symbol, encode}

pub encode-All :
    (P : ℕ → Type 0)
    → ((n : ℕ) → n < 64 → P (symbol n))
    → P b'='
    → (s : Str) → All IsByte s
    → All P (encode s)
unfolding encode
encode-All P digit pad [] h = tt
encode-All P digit pad (a ∷ []) (ha, h) =
    (digit (a / 4) (omega arith), (digit (a % 4 * 16) (omega arith), (pad, (pad, tt))))
encode-All P digit pad (a ∷ b ∷ []) (ha, (hb, h)) = (
  digit (a / 4) (omega arith),
  (digit (a % 4 * 16 + b / 16) (omega arith), (digit (b % 16 * 4) (omega arith), (pad, tt))),
)
encode-All P digit pad (a ∷ b ∷ c ∷ s) (ha, (hb, (hc, h))) = (
  digit (a / 4) (omega arith),
  (
    digit (a % 4 * 16 + b / 16) (omega arith),
    (
      digit (b % 16 * 4 + c / 64) (omega arith),
      (digit (c % 64) (omega arith), encode-All P digit pad s h),
    ),
  ),
)

pub encode-ne-nil : (s : Str) → s ≢ [] → encode s ≢ []
unfolding encode
encode-ne-nil [] n = absurd (n refl)
encode-ne-nil (a ∷ []) n = cc
encode-ne-nil (a ∷ b ∷ []) n = cc
encode-ne-nil (a ∷ b ∷ c ∷ s) n = cc
