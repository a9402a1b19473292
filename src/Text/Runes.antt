-- ===== src/Text/Runes.antt =====
-- `for _, r := range v`: the code points of a text, as package utf8 decodes it. A byte that begins
-- no well-formed sequence yields U+FFFD and is skipped alone.
use secretproxy.Prelude.{
  ℕ, zero, suc, ◌+◌, ◌*◌, ◌%◌, ◌≤◌, ◌<◌, ◌≡◌, refl, ap, inl, inr, Bool, true, ◌&&◌, List, [], ◌∷◌,
  arith, ltb, leb, ◌==◌, if◌then◌else◌, Bool-cases, all,
}
use secretproxy.Text.{Str}

abbrev rune_error : ℕ
rune_error = 0xFFFD

abbrev between : ℕ → ℕ → ℕ → Bool
between lo hi c = leb lo c && leb c hi

-- The range of the second byte of a sequence that begins with `a`.
abbrev second_low : ℕ → ℕ
second_low a = if a == 0xE0 then 0xA0 else if a == 0xF0 then 0x90 else 0x80

abbrev second_high : ℕ → ℕ
second_high a = if a == 0xED then 0x9F else if a == 0xF4 then 0x8F else 0xBF

-- A code point, and the number of bytes behind the first that it takes.
two_bytes : ℕ → Str → ℕ × ℕ
two_bytes a [] = (rune_error, 0)
two_bytes a (b ∷ s) = if between 0x80 0xBF b then (a % 32 * 64 + b % 64, 1) else (rune_error, 0)

three_bytes : ℕ → Str → ℕ × ℕ
three_bytes a (b ∷ c ∷ s) =
    if between (second_low a) (second_high a) b && between 0x80 0xBF c
    then (a % 16 * 4096 + b % 64 * 64 + c % 64, 2)
    else (rune_error, 0)
three_bytes a _ = (rune_error, 0)

four_bytes : ℕ → Str → ℕ × ℕ
four_bytes a (b ∷ c ∷ d ∷ s) =
    if between (second_low a) (second_high a) b && between 0x80 0xBF c && between 0x80 0xBF d
    then (a % 8 * 262144 + b % 64 * 4096 + c % 64 * 64 + d % 64, 3)
    else (rune_error, 0)
four_bytes a _ = (rune_error, 0)

-- utf8.DecodeRuneInString at a text that begins with the byte `a`.
unfoldable pub decode_rune : ℕ → Str → ℕ × ℕ
unfolding two_bytes three_bytes four_bytes
decode_rune a s =
    if ltb a 0x80
    then (a, 0)
    else if between 0xC2 0xDF a
    then two_bytes a s
    else if between 0xE0 0xEF a
    then three_bytes a s
    else if between 0xF0 0xF4 a
    then four_bytes a s
    else (rune_error, 0)

-- The first argument counts the bytes that belong to the code point before.
unfoldable pub runes_from : ℕ → Str → List ℕ
unfolding decode_rune
runes_from k [] = []
runes_from (suc k) (a ∷ s) = runes_from k s
runes_from zero (a ∷ s) = (decode_rune a s).0 ∷ runes_from (decode_rune a s).1 s

unfoldable pub runes : Str → List ℕ
unfolding runes_from
runes s = runes_from 0 s

-- The first bytes are not ASCII.
abbrev Upper : ℕ → Str → Type 0
Upper zero s = Unit
Upper (suc k) [] = ⊥
Upper (suc k) (a ∷ s) = (0x80 ≤ a) × Upper k s

-- A code point that is not ASCII takes bytes that are not ASCII.
abbrev IsUpper : Str → ℕ × ℕ → Type 0
IsUpper s d = (0x80 ≤ d.0) × Upper d.1 s

two_bytes-IsUpper : (a : ℕ) (s : Str) → 0xC2 ≤ a → a ≤ 0xDF → IsUpper s (two_bytes a s)
unfolding two_bytes
two_bytes-IsUpper a [] h k = (omega arith, tt)
two_bytes-IsUpper a (b ∷ s) h k = elim (Bool-cases (between 0x80 0xBF b)) [
  | inl e ↦ rw e (ground arith)
  | inr e ↦ rw e (omega arith, tt)
]

three_bytes-IsUpper : (a : ℕ) (s : Str) → 0xE0 ≤ a → a ≤ 0xEF → IsUpper s (three_bytes a s)
unfolding three_bytes
three_bytes-IsUpper a (b ∷ c ∷ s) h k =
    elim (Bool-cases (between (second_low a) (second_high a) b && between 0x80 0xBF c)) [
      | inl e ↦ rw e (ground arith, (ground arith, (ground arith, tt)))
      | inr e ↦ rw e (omega arith, tt)
    ]
three_bytes-IsUpper a _ h k = (omega arith, tt)

four_bytes-IsUpper : (a : ℕ) (s : Str) → 0xF0 ≤ a → a ≤ 0xF4 → IsUpper s (four_bytes a s)
unfolding four_bytes
four_bytes-IsUpper a (b ∷ c ∷ d ∷ s) h k =
    elim (Bool-cases
      (between (second_low a) (second_high a) b && between 0x80 0xBF c && between 0x80 0xBF d)) [
        | inl e ↦ rw e (ground arith, (ground arith, (ground arith, (ground arith, tt))))
        | inr e ↦ rw e (omega arith, tt)
      ]
four_bytes-IsUpper a _ h k = (omega arith, tt)

decode_rune-IsUpper : (a : ℕ) (s : Str) → 0x80 ≤ a → IsUpper s (decode_rune a s)
unfolding decode_rune
decode_rune-IsUpper a s h = elim (Bool-cases (between 0xC2 0xDF a)) [
  | inl two ↦ ground (arith, two_bytes-IsUpper a s)
  | inr not_two ↦ ground (arith, three_bytes-IsUpper a s, four_bytes-IsUpper a s)
]

decode_rune-ascii : (a : ℕ) (s : Str) → a < 0x80 → decode_rune a s ≡ (a, 0)
unfolding decode_rune
decode_rune-ascii a s h = ground arith

-- A test that no byte from 0x80 on fails: whether every code point passes is decided bytewise.
module _ (p : ℕ → Bool) (upper_passes : (c : ℕ) → 0x80 ≤ c → p c ≡ true) where
  all-runes_from : (k : ℕ) (s : Str) → Upper k s → all p (runes_from k s) ≡ all p s
  unfolding runes_from
  all-runes_from k [] u = refl
  all-runes_from (suc k) (a ∷ s) (h, u) = rw (upper_passes a h) (all-runes_from k s u)
  all-runes_from zero (a ∷ s) u = elim (Bool-cases (ltb a 0x80)) [
    | inl low ↦
        rw (decode_rune-ascii a s (ground arith)) (ap (λ r. p a && r) (all-runes_from 0 s tt))
    | inr high ↦
        let (wide, rest) = decode_rune-IsUpper a s (ground arith) in
        rw (upper_passes _ wide, upper_passes a (ground arith)) (all-runes_from _ s rest)
  ]

  pub all-runes : (s : Str) → all p (runes s) ≡ all p s
  unfolding runes
  all-runes s = all-runes_from 0 s tt
