-- ===== src/Encoding/Base64.antt =====
-- encoding/base64, StdEncoding: padded, not strict about trailing bits; line ends are skipped.
pub mod Alphabet
use secretproxy.Prelude.{
  ℕ, ◌+◌, ◌-◌, ◌*◌, ◌/◌, ◌%◌, ◌<◌, ◌≡◌, refl, false, ◌&&◌, ◌||◌, Option, none, some, [], ◌∷◌, arith,
  ltb, leb, ◌==◌, if◌then◌else◌, is_empty, All,
}
use secretproxy.Text.{Str}
use secretproxy.Encoding.Hex.{IsByte}

unfoldable pub symbol : ℕ → ℕ
symbol n =
    if ltb n 26
    then b'A' + n
    else if ltb n 52
    then b'a' + (n - 26)
    else if ltb n 62
    then b'0' + (n - 52)
    else if n == 62
    then b'+'
    else b'/'

unfoldable pub value : ℕ → Option ℕ
value c =
    if leb b'A' c && leb c b'Z'
    then some (c - b'A')
    else if leb b'a' c && leb c b'z'
    then some (c - b'a' + 26)
    else if leb b'0' c && leb c b'9'
    then some (c - b'0' + 52)
    else if c == b'+'
    then some 62
    else if c == b'/'
    then some 63
    else none

abbrev padding : ℕ
padding = b'='

unfoldable pub encode : Str → Str
unfolding symbol
encode [] = []
encode (a ∷ []) = symbol (a / 4) ∷ symbol (a % 4 * 16) ∷ padding ∷ padding ∷ []
encode (a ∷ b ∷ []) =
    symbol (a / 4) ∷ symbol (a % 4 * 16 + b / 16) ∷ symbol (b % 16 * 4) ∷ padding ∷ []
encode (a ∷ b ∷ c ∷ s) =
    symbol (a / 4)
    ∷ symbol (a % 4 * 16 + b / 16)
    ∷ symbol (b % 16 * 4 + c / 64)
    ∷ symbol (c % 64)
    ∷ encode s

-- The bytes of a quantum of two, three and four symbols; the last bits of a short one are dropped.
abbrev one_byte : Option ℕ → Option ℕ → Option Str
one_byte (some w) (some x) = some ((w * 4 + x / 16) ∷ [])
one_byte (some w) none = none
one_byte none x = none

abbrev two_bytes : Option ℕ → Option ℕ → Option ℕ → Option Str
two_bytes (some w) (some x) (some y) = some ((w * 4 + x / 16) ∷ (x % 16 * 16 + y / 4) ∷ [])
two_bytes (some w) (some x) none = none
two_bytes (some w) none y = none
two_bytes none x y = none

abbrev three_bytes : Option ℕ → Option ℕ → Option ℕ → Option ℕ → Option Str → Option Str
three_bytes (some w) (some x) (some y) (some z) (some rest) =
    some ((w * 4 + x / 16) ∷ (x % 16 * 16 + y / 4) ∷ (y % 4 * 64 + z) ∷ rest)
three_bytes (some w) (some x) (some y) (some z) none = none
three_bytes (some w) (some x) (some y) none r = none
three_bytes (some w) (some x) none z r = none
three_bytes (some w) none y z r = none
three_bytes none x y z r = none

-- Padding may only end the text.
unfoldable pub quanta : Str → Option Str
unfolding value
quanta [] = some []
quanta (a ∷ []) = none
quanta (a ∷ b ∷ []) = none
quanta (a ∷ b ∷ c ∷ []) = none
quanta (a ∷ b ∷ c ∷ d ∷ s) =
    let rest = quanta s in
    if d == padding && is_empty s
    then (if c == padding
        then one_byte (value a) (value b)
        else two_bytes (value a) (value b) (value c))
    else three_bytes (value a) (value b) (value c) (value d) rest

unfoldable without_line_ends : Str → Str
without_line_ends [] = []
without_line_ends (c ∷ s) =
    if c == b'\n' || c == b'\r' then without_line_ends s else c ∷ without_line_ends s

-- `none` stands for CorruptInputError.
unfoldable pub decode : Str → Option Str
unfolding quanta without_line_ends
decode s = quanta (without_line_ends s)

-- What a symbol of the alphabet is: read back, and neither padding nor a line end.
symbol_laws :
    (n : ℕ)
    → n < 64
    → (value (symbol n) ≡ some n)
      × ((symbol n == padding) ≡ false)
      × ((symbol n == b'\n' || symbol n == b'\r') ≡ false)
unfolding value symbol
symbol_laws n h = ground arith

module _ (n : ℕ) (h : n < 64) where
  value-symbol : value (symbol n) ≡ some n
  value-symbol = (symbol_laws n h).0

  symbol-ne-padding : (symbol n == padding) ≡ false
  symbol-ne-padding = (symbol_laws n h).1

  keep_symbol : (s : Str) → without_line_ends (symbol n ∷ s) ≡ symbol n ∷ without_line_ends s
  unfolding without_line_ends
  keep_symbol s = rw ((symbol_laws n h).2)

without_line_ends-encode : (s : Str) → All IsByte s → without_line_ends (encode s) ≡ encode s
unfolding encode
without_line_ends-encode [] h = unfold without_line_ends in refl
without_line_ends-encode (a ∷ []) (ha, h) =
    rw (keep_symbol (a / 4) (omega arith), keep_symbol (a % 4 * 16) (omega arith))
      (unfold without_line_ends in refl)
without_line_ends-encode (a ∷ b ∷ []) (ha, (hb, h)) =
    rw
      (
        keep_symbol (a / 4) (omega arith),
        keep_symbol (a % 4 * 16 + b / 16) (omega arith),
        keep_symbol (b % 16 * 4) (omega arith),
      )
      (unfold without_line_ends in refl)
without_line_ends-encode (a ∷ b ∷ c ∷ s) (ha, (hb, (hc, h))) = rw (
  keep_symbol (a / 4) (omega arith),
  keep_symbol (a % 4 * 16 + b / 16) (omega arith),
  keep_symbol (b % 16 * 4 + c / 64) (omega arith),
  keep_symbol (c % 64) (omega arith),
  without_line_ends-encode s h,
)

quanta-encode : (s : Str) → All IsByte s → quanta (encode s) ≡ some s
unfolding quanta encode
quanta-encode [] h = refl
quanta-encode (a ∷ []) (ha, h) =
    rw (value-symbol (a / 4) (omega arith), value-symbol (a % 4 * 16) (omega arith)) (ground arith)
quanta-encode (a ∷ b ∷ []) (ha, (hb, h)) =
    rw
      (
        value-symbol (a / 4) (omega arith),
        value-symbol (a % 4 * 16 + b / 16) (omega arith),
        value-symbol (b % 16 * 4) (omega arith),
        symbol-ne-padding (b % 16 * 4) (omega arith),
      )
      (ground arith)
quanta-encode (a ∷ b ∷ c ∷ s) (ha, (hb, (hc, h))) =
    rw
      (
        value-symbol (a / 4) (omega arith),
        value-symbol (a % 4 * 16 + b / 16) (omega arith),
        value-symbol (b % 16 * 4 + c / 64) (omega arith),
        value-symbol (c % 64) (omega arith),
        symbol-ne-padding (c % 64) (omega arith),
        quanta-encode s h,
      )
      (ground arith)

-- Every text of bytes is read back from its base64 form.
pub decode-encode : (s : Str) → All IsByte s → decode (encode s) ≡ some s
unfolding decode
decode-encode s h = rw (without_line_ends-encode s h) (quanta-encode s h)
