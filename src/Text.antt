-- ===== src/Text.antt =====
-- Go strings as their bytes, and the functions of package strings that the program calls. Case
-- folding and white space outside ASCII are tables of package unicode: a parameter.
pub mod Laws
pub mod Runes
pub mod Splitting
pub mod Trimming
use secretproxy.Prelude.{
  ℕ, ◌+◌, ◌-◌, Bool, true, false, ◌&&◌, ◌||◌, List, [], ◌∷◌, ◌++◌, Option, none, some, ltb, leb,
  ◌==◌, if◌then◌else◌, String, code, is_empty, any, all, suc,
}

abbrev pub Str : Type 0
Str = List ℕ

-- The bytes of an ASCII literal.
abbrev pub codes : String → Str
codes String.[] = []
codes (String.◌∷◌ c s) = code c ∷ codes s

unfoldable pub str_eq : Str → Str → Bool
str_eq [] [] = true
str_eq (a ∷ s) (b ∷ t) = a == b && str_eq s t
str_eq _ _ = false

-- What package unicode does with a text that holds a byte from 0x80 on.
pub record Unicode : Type 0 where
  pub lower : Str → Str
  pub trim : Str → Str

abbrev pub is_ascii : Str → Bool
is_ascii s = all (λ c. ltb c 0x80) s

unfoldable pub lower_byte : ℕ → ℕ
lower_byte c = if leb b'A' c && leb c b'Z' then c + 32 else c

unfoldable pub lower_ascii : Str → Str
lower_ascii [] = []
lower_ascii (c ∷ s) = lower_byte c ∷ lower_ascii s

-- `asciiSpace`: tab, line feed, vertical tab, form feed, carriage return, space.
unfoldable pub is_space : ℕ → Bool
is_space c = (leb 9 c && leb c 13) || c == b' '

unfoldable pub trim_left : (ℕ → Bool) → Str → Str
trim_left p [] = []
trim_left p (c ∷ s) = let rest = trim_left p s in if p c then rest else c ∷ s

unfoldable pub trim_right : (ℕ → Bool) → Str → Str
trim_right p [] = []
trim_right p (c ∷ s) = let rest = trim_right p s in if p c && is_empty rest then [] else c ∷ rest

module _ ⦃u : Unicode⦄ where
  -- strings.ToLower.
  unfoldable pub to_lower : Str → Str
  to_lower s = if is_ascii s then lower_ascii s else u.lower s

  -- strings.TrimSpace.
  unfoldable pub trim_space : Str → Str
  trim_space s = if is_ascii s then trim_right is_space (trim_left is_space s) else u.trim s

-- strings.HasPrefix, with what follows the prefix.
unfoldable pub strip_prefix : Str → Str → Option Str
strip_prefix s [] = some s
strip_prefix [] (b ∷ p) = none
strip_prefix (a ∷ s) (b ∷ p) = if a == b then strip_prefix s p else none

unfoldable pub has_prefix : Str → Str → Bool
has_prefix s [] = true
has_prefix [] (b ∷ p) = false
has_prefix (a ∷ s) (b ∷ p) = a == b && has_prefix s p

-- strings.HasSuffix for a suffix of one byte.
unfoldable pub ends_with : ℕ → Str → Bool
ends_with b [] = false
ends_with b (c ∷ []) = c == b
ends_with b (c ∷ d ∷ s) = ends_with b (d ∷ s)

unfoldable pub contains_byte : ℕ → Str → Bool
contains_byte b s = any (λ c. c == b) s

-- strings.Count for a text of one byte.
unfoldable pub count_byte : ℕ → Str → ℕ
count_byte b [] = 0
count_byte b (c ∷ s) = if c == b then suc (count_byte b s) else count_byte b s

abbrev pub push_part : ℕ → List Str → List Str
push_part c [] = (c ∷ []) ∷ []
push_part c (p ∷ ps) = (c ∷ p) ∷ ps

-- strings.Split at a separator of one byte: never empty.
unfoldable pub split : ℕ → Str → List Str
split sep [] = [] ∷ []
split sep (c ∷ s) = if c == sep then [] ∷ split sep s else push_part c (split sep s)

abbrev cut_push : ℕ → Option (Str × Str) → Option (Str × Str)
cut_push c none = none
cut_push c (some (before, after)) = some (c ∷ before, after)

-- strings.Cut, and SplitN(…, 2), at a separator of one byte.
unfoldable pub cut : ℕ → Str → Option (Str × Str)
cut sep [] = none
cut sep (c ∷ s) = if c == sep then some ([], s) else cut_push c (cut sep s)
