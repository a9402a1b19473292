-- ===== src/Seal/Anchors/Meaning.antt =====
-- What the anchors of requireAnchoredPattern are worth: with anchors of the text a match covers the
-- whole text; with anchors of a line, which the flag (?m) gives, it need not.
use secretproxy.Prelude.{
  ℕ, ◌≡◌, refl, sym, ◌≢◌, inr, true, false, some, List, [], ◌∷◌, ◌++◌, append-nil, arith, ◌==◌, ok,
}
use secretproxy.Text.{Str}
use secretproxy.Text.Runes.{runes}
use secretproxy.Seal.Regex.{
  Regexp, begin_line, end_line, literal, capture, star, plus, quest, repeat, concat, alternate,
  Regexps, nil, cons, Engine, Folding, Matches, InTurn, done, next, at_begin_text, at_end_text,
  at_begin_line, at_end_line, a_capture, a_concat, Sound, match_string, newline, Spells, a_literal,
  last_is,
}
use secretproxy.Seal.Anchors.{
  begins_with_anchor, first_begins, ends_with_anchor, last_ends, require_anchored_pattern,
}

-- No anchor of a line stands in the tree: the pattern was parsed without the flag (?m).
abbrev mutual
  HasNoLineAnchor : Regexp → Type 0
  HasNoLineAnchor begin_line = ⊥
  HasNoLineAnchor end_line = ⊥
  HasNoLineAnchor (capture r) = HasNoLineAnchor r
  HasNoLineAnchor (star r) = HasNoLineAnchor r
  HasNoLineAnchor (plus r) = HasNoLineAnchor r
  HasNoLineAnchor (quest r) = HasNoLineAnchor r
  HasNoLineAnchor (repeat lo hi r) = HasNoLineAnchor r
  HasNoLineAnchor (concat rs) = HaveNoLineAnchor rs
  HasNoLineAnchor (alternate rs) = HaveNoLineAnchor rs
  HasNoLineAnchor _ = Unit

  HaveNoLineAnchor : Regexps → Type 0
  HaveNoLineAnchor nil = Unit
  HaveNoLineAnchor (cons r rs) = HasNoLineAnchor r × HaveNoLineAnchor rs

nil_of_append : (s a : List ℕ) → s ++ a ≡ [] → (s ≡ []) × (a ≡ [])
nil_of_append [] a h = (refl, h)
nil_of_append (c ∷ s) a h = cc

module _ ⦃f : Folding⦄ where
  mutual
    unfolding begins_with_anchor

    begins-nil :
        {r : Regexp} {b p a : List ℕ}
        → Matches r b p a
        → begins_with_anchor r ≡ true
        → HasNoLineAnchor r
        → b ≡ []
    begins-nil (at_begin_text _ e) h n = e
    begins-nil (at_begin_line _ _) h n = absurd n
    begins-nil (a_capture m) h n = begins-nil m h n
    begins-nil (a_concat t) h n = first-nil t h n
    begins-nil _ h n = cc

    first-nil :
        {rs : Regexps} {b p a : List ℕ}
        → InTurn rs b p a
        → first_begins rs ≡ true
        → HaveNoLineAnchor rs
        → b ≡ []
    first-nil (done _) h n = cc
    first-nil (next q s _ m _) h n = begins-nil m h n.0

  mutual
    unfolding ends_with_anchor

    ends-nil :
        {r : Regexp} {b p a : List ℕ}
        → Matches r b p a
        → ends_with_anchor r ≡ true
        → HasNoLineAnchor r
        → a ≡ []
    ends-nil (at_end_text _ e) h n = e
    ends-nil (at_end_line _ _) h n = absurd n
    ends-nil (a_capture m) h n = ends-nil m h n
    ends-nil (a_concat t) h n = last-nil t h n
    ends-nil _ h n = cc

    last-nil :
        {rs : Regexps} {b p a : List ℕ}
        → InTurn rs b p a
        → last_ends rs ≡ true
        → HaveNoLineAnchor rs
        → a ≡ []
    last-nil (done _) h n = cc
    last-nil (next {a} q s _ m (done _)) h n = (nil_of_append s a (ends-nil m h n.0)).1
    last-nil (next q s _ m (next q' s' e' m' t')) h n = last-nil (next q' s' e' m' t') h n.1

  require_anchors :
      (e : Engine) (pattern : Str) {re : Regexp}
      → e.parse pattern ≡ some re
      → pattern ≢ []
      → require_anchored_pattern e pattern ≡ ok tt
      → (begins_with_anchor re ≡ true) × (ends_with_anchor re ≡ true)
  unfolding require_anchored_pattern
  require_anchors e [] parsed n h = absurd (n refl)
  require_anchors e (c ∷ pattern) {re} parsed n h = ground arith

  -- If what the engine finds is a match of the pattern's tree, then a pattern that is not empty, that
  -- requireAnchoredPattern accepts and whose tree has no line anchor is found in a text only as a match
  -- of the whole text.
  pub accepted_pattern_covers :
      (e : Engine) (pattern text : Str) (re : Regexp)
      → Sound e
      → e.parse pattern ≡ some re
      → HasNoLineAnchor re
      → pattern ≢ []
      → require_anchored_pattern e pattern ≡ ok tt
      → match_string e pattern text ≡ some true
      → Matches re [] (runes text) []
  unfolding match_string
  accepted_pattern_covers e pattern text re sound parsed plain n h found =
      let (begins, ends) = require_anchors e pattern parsed n h in
      let (b, p, a, split_up, m) = sound re text (ground arith) in
      let b_nil = begins-nil m begins plain in
      let a_nil = ends-nil m ends plain in
      let whole : runes text ≡ p = rw (split_up, b_nil, a_nil) (append-nil p) in
      rw whole (rw b_nil at (rw a_nil at m))

  Spells-self : (word : List ℕ) → Spells false word word
  Spells-self [] = tt
  Spells-self (c ∷ word) = (refl, Spells-self word)

  last_is-newline : (l : List ℕ) → last_is (λ c. c == newline) (l ++ newline ∷ []) ≡ true
  last_is-newline [] = refl
  last_is-newline (c ∷ []) = refl
  last_is-newline (c ∷ d ∷ l) = last_is-newline (d ∷ l)

  -- Whatever the word, the tree of `(?m)^word$` passes both tests of anchors, and yet matches the
  -- word in a line of its own inside a longer text.
  pub line_anchors_admit_more :
      (word before after : List ℕ)
      → let re = concat (cons begin_line (cons (literal false word) (cons end_line nil))) in
        (begins_with_anchor re ≡ true)
        × (ends_with_anchor re ≡ true)
        × Matches re (before ++ newline ∷ []) word (newline ∷ after)
  unfolding begins_with_anchor ends_with_anchor
  line_anchors_admit_more word before after = (
    refl,
    refl,
    a_concat (
        next [] word refl (at_begin_line refl (inr (last_is-newline before))) (
          next word [] (sym (append-nil word)) (a_literal (Spells-self word))
            (next [] [] refl (at_end_line refl (inr refl)) (done refl)))),
  )
