-- ===== src/Seal/Anchors.antt =====
-- seal.go: the anchors that a pattern must have at both ends.
pub mod Meaning
use secretproxy.Prelude.{
  ℕ, zero, suc, ◌+◌, ◌-◌, ◌*◌, ◌/◌, ◌%◌, ◌^◌, ◌≤◌, ◌<◌, code, String, ◌≡◌, refl, sym, ap, ◌∙◌,
  ◌≡⟨◌⟩◌, ◌∎, ◌≢◌, ◌↔◌, ◌⊎◌, inl, inr, Bool, true, false, not, ◌&&◌, ◌||◌, Option, none, some, List,
  [], ◌∷◌, ◌++◌, append-nil, append_assoc, arith, ltb, leb, ◌==◌, if◌then◌else◌, ==_iff, Bool-cases,
  Option-cases, &&-eq-true, length, is_empty, length-append, any, all, last_or, All, Any,
  All-append, last_or-append, Result, ok, err, Check, ◌>>=◌, ◌>>◌, refuse_if, wrap, >>=-eq-ok,
  Result-cases,
}
use secretproxy.Text.{Str}
use secretproxy.Seal.Regex.{
  Regexp, begin_line, end_line, begin_text, end_text, capture, concat, Regexps, nil, cons, Engine,
}

unfoldable mutual
  pub begins_with_anchor : Regexp → Bool
  begins_with_anchor begin_text = true
  begins_with_anchor begin_line = true
  begins_with_anchor (concat subs) = first_begins subs
  begins_with_anchor (capture sub) = begins_with_anchor sub
  begins_with_anchor _ = false

  pub first_begins : Regexps → Bool
  first_begins nil = false
  first_begins (cons sub subs) = begins_with_anchor sub

unfoldable mutual
  pub ends_with_anchor : Regexp → Bool
  ends_with_anchor end_text = true
  ends_with_anchor end_line = true
  ends_with_anchor (concat subs) = last_ends subs
  ends_with_anchor (capture sub) = ends_with_anchor sub
  ends_with_anchor _ = false

  pub last_ends : Regexps → Bool
  last_ends nil = false
  last_ends (cons sub nil) = ends_with_anchor sub
  last_ends (cons sub (cons next subs)) = last_ends (cons next subs)

pub data PatternError : Type 0 where
  invalid_regex must_start_with_anchor must_end_with_anchor : PatternError

unfoldable pub require_anchored_pattern : Engine → Str → Check PatternError
unfolding begins_with_anchor ends_with_anchor
require_anchored_pattern e [] = ok tt
require_anchored_pattern e (c ∷ pattern) = elim (e.parse (c ∷ pattern)) [
  | none ↦ err invalid_regex
  | some re ↦
      refuse_if (not (begins_with_anchor re)) must_start_with_anchor
      >> refuse_if (not (ends_with_anchor re)) must_end_with_anchor
]
