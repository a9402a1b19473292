-- ===== src/Text/Trimming.antt =====
-- Trimming white space from around a text that holds none.
use secretproxy.Prelude.{
  ℕ, ◌<◌, ◌≡◌, refl, ◌≢◌, true, false, [], ◌∷◌, ◌++◌, arith, ltb, &&-eq-true, all, All,
}
use secretproxy.Text.{Str, Unicode, trim_space, is_ascii, is_space, trim_left, trim_right}

abbrev pub IsPlain : ℕ → Type 0
IsPlain c = (c < 0x80) × (is_space c ≡ false)

is_ascii_of_IsPlain : (s : Str) → All IsPlain s → is_ascii s ≡ true
is_ascii_of_IsPlain [] h = refl
is_ascii_of_IsPlain (c ∷ s) (p, h) = ground (arith, is_ascii_of_IsPlain s h)

pub is_ascii-append : (s t : Str) → is_ascii s ≡ true → is_ascii t ≡ true → is_ascii (s ++ t) ≡ true
is_ascii-append [] t h k = k
is_ascii-append (c ∷ s) t h k =
    let (here, later) = &&-eq-true (ltb c 0x80) (is_ascii s) h in
    rw here (is_ascii-append s t later k)

-- White space as an editor or a shell leaves it.
abbrev pub IsBlank : Str → Type 0
IsBlank s = all is_space s ≡ true

blank-is_ascii : (s : Str) → IsBlank s → is_ascii s ≡ true
unfolding is_space
blank-is_ascii [] h = refl
blank-is_ascii (c ∷ s) h = ground (arith, blank-is_ascii s)

trim_left-blank :
    (before s : Str) → IsBlank before → trim_left is_space (before ++ s) ≡ trim_left is_space s
unfolding trim_left
trim_left-blank [] s h = refl
trim_left-blank (c ∷ before) s h = ground (arith, trim_left-blank before s)

trim_left-plain : (s t : Str) → s ≢ [] → All IsPlain s → trim_left is_space (s ++ t) ≡ s ++ t
unfolding trim_left
trim_left-plain [] t n h = absurd (n refl)
trim_left-plain (c ∷ s) t n (p, h) = rw (p.1)

trim_right-blank : (after : Str) → IsBlank after → trim_right is_space after ≡ []
unfolding trim_right
trim_right-blank [] h = refl
trim_right-blank (c ∷ s) h = ground (arith, trim_right-blank s)

trim_right-plain :
    (s after : Str) → All IsPlain s → IsBlank after → trim_right is_space (s ++ after) ≡ s
unfolding trim_right
trim_right-plain [] after h k = trim_right-blank after k
trim_right-plain (c ∷ s) after (p, h) k = rw (p.1, trim_right-plain s after h k)

pub trim_space-plain :
    ⦃u : Unicode⦄
    → (before s after : Str) → s ≢ []
    → All IsPlain s
    → IsBlank before
    → IsBlank after
    → trim_space (before ++ (s ++ after)) ≡ s
unfolding trim_space
trim_space-plain before s after n h b a =
    rw
      (
        is_ascii-append before (s ++ after) (blank-is_ascii before b)
            (is_ascii-append s after (is_ascii_of_IsPlain s h) (blank-is_ascii after a)),
        trim_left-blank before (s ++ after) b,
        trim_left-plain s after n h,
      )
      (trim_right-plain s after h a)
