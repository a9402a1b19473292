-- ===== src/Text/Splitting.antt =====
-- Splitting a text at a separator.
use secretproxy.Prelude.{
  ℕ, ◌≡◌, refl, ◌≢◌, List, [], ◌∷◌, ◌++◌, arith, last_or, All, last_or-append,
}
use secretproxy.Text.{Str, split, push_part}

abbrev pub Lacks : ℕ → Str → Type 0
Lacks b = All (λ c. c ≢ b)

-- The parts joined again, each behind a separator.
abbrev joined : ℕ → List Str → Str
joined sep [] = []
joined sep (p ∷ ps) = sep ∷ (p ++ joined sep ps)

joined-push_part :
    (sep c : ℕ) (ps : List Str) (s : Str)
    → joined sep ps ≡ sep ∷ s
    → joined sep (push_part c ps) ≡ sep ∷ c ∷ s
joined-push_part sep c [] s h = cc
joined-push_part sep c (p ∷ ps) s h = ground arith

joined-split : (sep : ℕ) (s : Str) → joined sep (split sep s) ≡ sep ∷ s
unfolding split
joined-split sep [] = refl
joined-split sep (c ∷ s) =
    ground (arith, joined-split sep s, joined-push_part sep c (split sep s) s)

-- No part holds the separator.
push_part-Lacks :
    (sep c : ℕ) (ps : List Str) → c ≢ sep → All (Lacks sep) ps → All (Lacks sep) (push_part c ps)
push_part-Lacks sep c [] n h = ((n, tt), tt)
push_part-Lacks sep c (p ∷ ps) n (h, hs) = ((n, h), hs)

split-Lacks : (sep : ℕ) (s : Str) → All (Lacks sep) (split sep s)
unfolding split
split-Lacks sep [] = (tt, tt)
split-Lacks sep (c ∷ s) = ground (arith, split-Lacks sep s, push_part-Lacks sep c (split sep s))

pub split_of_Lacks : (sep : ℕ) (s : Str) → Lacks sep s → split sep s ≡ s ∷ []
unfolding split
split_of_Lacks sep [] h = refl
split_of_Lacks sep (c ∷ s) (n, h) = ground (arith, split_of_Lacks sep s h)

split-ne-nil : (sep : ℕ) (s : Str) → split sep s ≢ []
unfolding split
split-ne-nil sep [] = cc
split-ne-nil sep (c ∷ s) = ground (arith, split-ne-nil sep s)

push_part-append :
    (c : ℕ) (ps qs : List Str) → ps ≢ [] → push_part c (ps ++ qs) ≡ push_part c ps ++ qs
push_part-append c [] qs h = absurd (h refl)
push_part-append c (p ∷ ps) qs h = refl

pub split-append :
    (sep : ℕ) (before after : Str)
    → split sep (before ++ sep ∷ after) ≡ split sep before ++ split sep after
unfolding split
split-append sep [] after = ground arith
split-append sep (c ∷ before) after = ground (
  arith,
  split-append sep before after,
  push_part-append c (split sep before) (split sep after),
  split-ne-nil sep before,
)

-- What stands behind the last separator is the last part, whatever stands before it.
pub last_or-split :
    (sep : ℕ) (before token d : Str)
    → Lacks sep token
    → last_or d (split sep (before ++ sep ∷ token)) ≡ token
last_or-split sep before token d h =
    rw (split-append sep before token, split_of_Lacks sep token h)
      (last_or-append d (split sep before) token)
