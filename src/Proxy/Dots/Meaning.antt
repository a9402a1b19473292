-- ===== src/Proxy/Dots/Meaning.antt =====
-- What an accepted path promises, however often a server behind the proxy decodes it.
use secretproxy.Prelude.{
  ℕ, zero, suc, ◌+◌, ◌≤◌, ◌<◌, ◌≡◌, refl, ◌≢◌, ◌↔◌, inl, inr, false, Option, none, some, List, [],
  ◌∷◌, arith, Bool-cases, Option-cases, All, ok,
}
use secretproxy.Text.{Str, codes, str_eq, split}
use secretproxy.Text.Laws.{str_eq_iff, eq_of_str_eq, str_eq_refl}
use secretproxy.Net.Unescape.{path_unescape}
use secretproxy.Proxy.Dots.{max_decodes, is_dot, first_dot, dot_rounds, refuse_dot_segments}

abbrev IsNoDot : Str → Type 0
IsNoDot seg = (seg ≢ codes ".") × (seg ≢ codes "..")

-- No segment between slashes is `.` or `..`.
abbrev pub HasNoDots : Str → Type 0
HasNoDots path = All IsNoDot (split b'/' path)

abbrev and_then : Option Str → (Str → Option Str) → Option Str
and_then none f = none
and_then (some s) f = f s

-- The path after so many rounds of unescaping.
abbrev pub decoded : ℕ → Str → Option Str
decoded zero path = some path
decoded (suc n) path = and_then (path_unescape path) (decoded n)

is_dot_iff : (seg : Str) → (is_dot seg ≡ false) ↔ IsNoDot seg
is_dot_iff seg = ground (arith, str_eq_iff seg (codes "."), str_eq_iff seg (codes ".."))

first_dot_iff : (segs : List Str) → (first_dot segs ≡ none) ↔ All IsNoDot segs
unfolding first_dot
first_dot_iff [] = (λ _. tt, λ _. refl)
first_dot_iff (seg ∷ segs) =
    let (dot_to, dot_from) = is_dot_iff seg in
    let (to, from) = first_dot_iff segs in
    elim (Bool-cases (is_dot seg)) [
      | inl dot ↦ (λ h. absurd (ground arith), λ h. absurd (ground arith))
      | inr plain ↦ (λ h. (dot_to plain, to (ground arith)), λ h. ground arith)
    ]

-- The path is stable after `k` rounds, and no round up to then shows a dot segment.
abbrev pub IsClean : ℕ → Str → Type 0
IsClean zero path = HasNoDots path × (path_unescape path ≡ some path)
IsClean (suc k) path =
    HasNoDots path × ((next : Str) × (path_unescape path ≡ some next) × IsClean k next)

dot_rounds-IsClean :
    (rounds i : ℕ) (path : Str)
    → dot_rounds rounds i path ≡ ok tt
    → (k : ℕ) × (k < rounds) × IsClean k path
unfolding dot_rounds
dot_rounds-IsClean zero i path h = cc
dot_rounds-IsClean (suc rounds) i path h = elim (Option-cases (first_dot (split b'/' path))) [
  | inr (seg, found) ↦ absurd (ground arith)
  | inl clean ↦
      let no_dots = (first_dot_iff (split b'/' path)).0 clean in
      elim (Option-cases (path_unescape path)) [
        | inl bad ↦ absurd (ground arith)
        | inr (next, e) ↦ elim (Bool-cases (str_eq next path)) [
          | inl same ↦ (0, omega arith, (no_dots, rw (eq_of_str_eq next path same) at e))
          | inr other ↦
              let (k, below, rest) = dot_rounds-IsClean rounds (i + 1) next (ground arith) in
              (suc k, omega arith, (no_dots, (next, e, rest)))
        ]
      ]
]

IsClean-dot_rounds :
    (rounds i k : ℕ) (path : Str) → k < rounds → IsClean k path → dot_rounds rounds i path ≡ ok tt
unfolding dot_rounds
IsClean-dot_rounds zero i k path h c = absurd (omega arith)
IsClean-dot_rounds (suc rounds) i zero path h (clean, stable) =
    let none_found = (first_dot_iff (split b'/' path)).1 clean in
    let same = str_eq_refl path in ground arith
IsClean-dot_rounds (suc rounds) i (suc k) path h (clean, (next, e, rest)) =
    let none_found = (first_dot_iff (split b'/' path)).1 clean in
    let more = IsClean-dot_rounds rounds (i + 1) k next (omega arith) rest in ground arith

-- A path is accepted exactly if at most four rounds of unescaping make it stable, each round succeeds
-- and neither the path nor any of its unescaped forms up to there has a dot segment.
pub refuse_dot_segments_iff :
    (path : Str)
    → (refuse_dot_segments path ≡ ok tt) ↔ ((k : ℕ) × (k ≤ max_decodes) × IsClean k path)
unfolding refuse_dot_segments
refuse_dot_segments_iff path = (
  λ h. let (k, below, c) = dot_rounds-IsClean 5 0 path h in (k, omega arith, c),
  λ (k, most, c). IsClean-dot_rounds 5 0 k path (omega arith) c,
)

stable-decoded : (n : ℕ) (path : Str) → path_unescape path ≡ some path → decoded n path ≡ some path
stable-decoded zero path h = refl
stable-decoded (suc n) path h = rw h (stable-decoded n path h)

IsClean-decoded :
    (k n : ℕ) (path : Str) → IsClean k path → (t : Str) × (decoded n path ≡ some t) × HasNoDots t
IsClean-decoded k zero path c = (path, refl, no_dots k c)
  where
    no_dots : (k : ℕ) → IsClean k path → HasNoDots path
    no_dots zero c = c.0
    no_dots (suc k) c = c.0
IsClean-decoded zero (suc n) path (clean, stable) =
    (path, stable-decoded (suc n) path stable, clean)
IsClean-decoded (suc k) (suc n) path (clean, (next, e, rest)) =
    let (t, d, harmless) = IsClean-decoded k n next rest in (t, rw e d, harmless)

-- However many times the upstream unescapes an accepted path, the unescaping succeeds and no dot
-- segment appears: the bound of four rounds loses nothing.
pub accepted_stays_harmless :
    (path : Str) (n : ℕ)
    → refuse_dot_segments path ≡ ok tt
    → (t : Str) × (decoded n path ≡ some t) × HasNoDots t
accepted_stays_harmless path n h =
    let (k, _, c) = (refuse_dot_segments_iff path).0 h in IsClean-decoded k n path c
