-- ===== src/Encoding/Hex.antt =====
-- encoding/hex: EncodeToString writes lower case, DecodeString reads either case.
use secretproxy.Prelude.{
  ℕ, ◌+◌, ◌-◌, ◌*◌, ◌/◌, ◌%◌, ◌≤◌, ◌<◌, ◌≡◌, refl, ◌⊎◌, ◌&&◌, Option, none, some, [], ◌∷◌, arith,
  ltb, leb, if◌then◌else◌, All,
}
use secretproxy.Text.{Str}

abbrev pub IsByte : ℕ → Type 0
IsByte c = c < 256

unfoldable pub hex_digit : ℕ → ℕ
hex_digit n = if ltb n 10 then b'0' + n else b'a' + (n - 10)

unfoldable pub from_hex : ℕ → Option ℕ
from_hex c =
    if leb b'0' c && leb c b'9'
    then some (c - b'0')
    else if leb b'a' c && leb c b'f'
    then some (c - b'a' + 10)
    else if leb b'A' c && leb c b'F'
    then some (c - b'A' + 10)
    else none

unfoldable pub encode : Str → Str
unfolding hex_digit
encode [] = []
encode (c ∷ s) = hex_digit (c / 16) ∷ hex_digit (c % 16) ∷ encode s

abbrev hex_pair : Option ℕ → Option ℕ → Option Str → Option Str
hex_pair (some h) (some l) (some s) = some ((h * 16 + l) ∷ s)
hex_pair (some h) (some l) none = none
hex_pair (some h) none r = none
hex_pair none l r = none

-- `none` stands for ErrLength and InvalidByteError.
unfoldable pub decode : Str → Option Str
unfolding from_hex
decode [] = some []
decode (a ∷ []) = none
decode (a ∷ b ∷ s) = hex_pair (from_hex a) (from_hex b) (decode s)

from_hex-hex_digit : (n : ℕ) → n < 16 → from_hex (hex_digit n) ≡ some n
unfolding from_hex hex_digit
from_hex-hex_digit n h = ground arith

pair_value : (c : ℕ) → c / 16 * 16 + c % 16 ≡ c
pair_value c = omega arith

pub decode-encode : (s : Str) → All IsByte s → decode (encode s) ≡ some s
unfolding decode encode
decode-encode [] h = refl
decode-encode (c ∷ s) (b, h) = rw (
  from_hex-hex_digit (c / 16) (omega arith),
  from_hex-hex_digit (c % 16) (omega arith),
  decode-encode s h,
  pair_value c,
)

-- The printed form is ASCII without white space: digits and lower-case letters.
abbrev IsHexDigit : ℕ → Type 0
IsHexDigit c = ((b'0' ≤ c) × (c ≤ b'9')) ⊎ ((b'a' ≤ c) × (c ≤ b'f'))

hex_digit-IsHexDigit : (n : ℕ) → n < 16 → IsHexDigit (hex_digit n)
unfolding hex_digit
hex_digit-IsHexDigit n h = ground arith

pub encode-IsHexDigit : (s : Str) → All IsByte s → All IsHexDigit (encode s)
unfolding encode
encode-IsHexDigit [] h = tt
encode-IsHexDigit (c ∷ s) (b, h) = (
  hex_digit-IsHexDigit (c / 16) (omega arith),
  (hex_digit-IsHexDigit (c % 16) (omega arith), encode-IsHexDigit s h),
)
