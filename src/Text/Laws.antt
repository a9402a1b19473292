-- ===== src/Text/Laws.antt =====
-- Comparison, trimming and case folding of texts.
use secretproxy.Prelude.{◌==◌, ◌≡◌, ◌↔◌, refl, true, [], ◌∷◌, ◌++◌, arith, &&-eq-true}
use secretproxy.Text.{Str, str_eq, has_prefix}

pub str_eq_refl : (s : Str) → str_eq s s ≡ true
unfolding str_eq
str_eq_refl [] = refl
str_eq_refl (c ∷ s) = ground (arith, str_eq_refl s)

pub eq_of_str_eq : (s t : Str) → str_eq s t ≡ true → s ≡ t
unfolding str_eq
eq_of_str_eq [] [] h = refl
eq_of_str_eq (a ∷ s) (b ∷ t) h = ground (arith, eq_of_str_eq s t)
eq_of_str_eq [] (b ∷ t) h = cc
eq_of_str_eq (a ∷ s) [] h = cc

pub str_eq_iff : (s t : Str) → (str_eq s t ≡ true) ↔ (s ≡ t)
str_eq_iff s t = (eq_of_str_eq s t, λ e. rw e (str_eq_refl t))

pub has_prefix-append : (p s : Str) → has_prefix (p ++ s) p ≡ true
unfolding has_prefix
has_prefix-append [] s = refl
has_prefix-append (c ∷ p) s = ground (arith, has_prefix-append p s)

-- A prefix is split off.
pub append_of_has_prefix : (s p : Str) → has_prefix s p ≡ true → (rest : Str) × (s ≡ p ++ rest)
unfolding has_prefix
append_of_has_prefix s [] h = (s, refl)
append_of_has_prefix (a ∷ s) (b ∷ p) h =
    let (same, more) = &&-eq-true (a == b) (has_prefix s p) h in
    let (rest, e) = append_of_has_prefix s p more in (rest, ground arith)
append_of_has_prefix [] (b ∷ p) h = cc
