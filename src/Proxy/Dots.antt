-- ===== src/Proxy/Dots.antt =====
-- proxy.go: refuseDotSegments.
pub mod Meaning
use secretproxy.Prelude.{
  ℕ, zero, suc, ◌+◌, ◌-◌, ◌*◌, ◌/◌, ◌%◌, ◌^◌, ◌≤◌, ◌<◌, code, String, ◌≡◌, refl, sym, ap, ◌∙◌,
  ◌≡⟨◌⟩◌, ◌∎, ◌≢◌, ◌↔◌, ◌⊎◌, inl, inr, Bool, true, false, not, ◌&&◌, ◌||◌, Option, none, some, List,
  [], ◌∷◌, ◌++◌, append-nil, append_assoc, arith, ltb, leb, ◌==◌, if◌then◌else◌, ==_iff, Bool-cases,
  Option-cases, &&-eq-true, length, get_elem?, is_empty, length-append, any, all, last_or, All, Any,
  All-append, last_or-append, Result, ok, err, Check, ◌>>=◌, ◌>>◌, refuse_if, wrap, >>=-eq-ok,
  Result-cases,
}
use secretproxy.Text.{Str, codes, str_eq, split}
use secretproxy.Net.Unescape.{path_unescape}

abbrev pub max_decodes : ℕ
max_decodes = 4

pub data DotError : Type 0 where
  dot_segment : (seg : Str) (decodes : ℕ) → DotError
  invalid_encoding not_stable : DotError

abbrev pub is_dot : Str → Bool
is_dot seg = str_eq seg (codes ".") || str_eq seg (codes "..")

-- The first segment of a list that is a dot segment.
unfoldable pub first_dot : List Str → Option Str
first_dot [] = none
first_dot (seg ∷ segs) = let rest = first_dot segs in if is_dot seg then some seg else rest

-- `for i := 0; i <= maxDecodes; i++`, with the rounds that are left.
unfoldable pub dot_rounds : (rounds i : ℕ) → Str → Check DotError
dot_rounds zero i current = err not_stable
dot_rounds (suc rounds) i current = elim (first_dot (split b'/' current)) [
  | some seg ↦ err (dot_segment seg i)
  | none ↦ elim (path_unescape current) [
    | none ↦ err invalid_encoding
    | some next ↦
        let more = dot_rounds rounds (i + 1) next in if str_eq next current then ok tt else more
  ]
]

unfoldable pub refuse_dot_segments : Str → Check DotError
unfolding dot_rounds
refuse_dot_segments path = dot_rounds (max_decodes + 1) 0 path
