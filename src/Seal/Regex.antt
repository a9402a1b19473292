-- ===== src/Seal/Regex.antt =====
-- What seal.go and proxy.go use of regexp and regexp/syntax: the syntax tree, and what it means for
-- a tree to match a part of a text. The parser and the engine are parameters.
use secretproxy.Prelude.{
  ℕ, zero, suc, ◌≤◌, ◌≡◌, ◌≢◌, ◌⊎◌, Bool, true, false, not, ◌&&◌, ◌||◌, Option, none, some, List,
  [], ◌∷◌, ◌++◌, leb, ◌==◌, if◌then◌else◌,
}
use secretproxy.Text.{Str}
use secretproxy.Text.Runes.{runes}

-- syntax.Regexp, a constructor for each Op; a literal and a class carry whether they fold case.
mutual
  pub data Regexp : Type 0 where
    no_match empty_match any_char_not_nl any_char : Regexp
    begin_line end_line begin_text end_text : Regexp
    word_boundary no_word_boundary : Regexp
    literal : Bool → List ℕ → Regexp
    char_class : List (ℕ × ℕ) → Regexp
    capture star plus quest : Regexp → Regexp
    repeat : ℕ → Option ℕ → Regexp → Regexp
    concat alternate : Regexps → Regexp

  pub data Regexps : Type 0 where
    nil : Regexps
    cons : Regexp → Regexps → Regexps

abbrev pub newline : ℕ
newline = b'\n'

abbrev in_class : List (ℕ × ℕ) → ℕ → Bool
in_class [] c = false
in_class ((lo, hi) ∷ l) c = (leb lo c && leb c hi) || in_class l c

abbrev is_word : ℕ → Bool
is_word c =
    (leb b'0' c && leb c b'9')
    || (leb b'A' c && leb c b'Z')
    || (leb b'a' c && leb c b'z')
    || c == b'_'

abbrev pub last_is : (ℕ → Bool) → List ℕ → Bool
last_is p [] = false
last_is p (c ∷ []) = p c
last_is p (c ∷ d ∷ l) = last_is p (d ∷ l)

abbrev first_is : (ℕ → Bool) → List ℕ → Bool
first_is p [] = false
first_is p (c ∷ l) = p c

abbrev at_boundary : List ℕ → List ℕ → Bool
at_boundary before after =
    if last_is is_word before then not (first_is is_word after) else first_is is_word after

-- Simple case folding of package unicode, on code points.
pub record Folding : Type 0 where
  pub same_fold : ℕ → ℕ → Bool

module _ ⦃f : Folding⦄ where
  -- The text of a literal.
  abbrev pub Spells : Bool → List ℕ → List ℕ → Type 0
  Spells fold [] [] = Unit
  Spells true (r ∷ rs) (c ∷ cs) = (f.same_fold r c ≡ true) × Spells true rs cs
  Spells false (r ∷ rs) (c ∷ cs) = (r ≡ c) × Spells false rs cs
  Spells _ _ _ = ⊥

  -- `Matches r before part after`: in `before ++ part ++ after` the tree matches at `part`.
  mutual
    pub data Matches : Regexp → List ℕ → List ℕ → List ℕ → Type 0 where
      an_empty : {b p a : List ℕ} → p ≡ [] → Matches empty_match b p a
      a_char : {b p a : List ℕ} (c : ℕ) → p ≡ c ∷ [] → Matches any_char b p a
      a_char_not_nl :
          {b p a : List ℕ} (c : ℕ) → p ≡ c ∷ [] → c ≢ newline → Matches any_char_not_nl b p a
      at_begin_text : {b p a : List ℕ} → p ≡ [] → b ≡ [] → Matches begin_text b p a
      at_end_text : {b p a : List ℕ} → p ≡ [] → a ≡ [] → Matches end_text b p a
      at_begin_line :
          {b p a : List ℕ}
          → p ≡ []
          → (b ≡ []) ⊎ (last_is (λ c. c == newline) b ≡ true)
          → Matches begin_line b p a
      at_end_line :
          {b p a : List ℕ}
          → p ≡ []
          → (a ≡ []) ⊎ (first_is (λ c. c == newline) a ≡ true)
          → Matches end_line b p a
      a_boundary : {b p a : List ℕ} → p ≡ [] → at_boundary b a ≡ true → Matches word_boundary b p a
      no_boundary :
          {b p a : List ℕ} → p ≡ [] → at_boundary b a ≡ false → Matches no_word_boundary b p a
      a_literal :
          {b p a : List ℕ} {fold : Bool} {rs : List ℕ}
          → Spells fold rs p
          → Matches (literal fold rs) b p a
      in_a_class :
          {b p a : List ℕ} {l : List (ℕ × ℕ)} (c : ℕ)
          → p ≡ c ∷ []
          → in_class l c ≡ true
          → Matches (char_class l) b p a
      a_capture : {b p a : List ℕ} {r : Regexp} → Matches r b p a → Matches (capture r) b p a
      a_star : {b p a : List ℕ} {r : Regexp} (n : ℕ) → Times n r b p a → Matches (star r) b p a
      a_plus :
          {b p a : List ℕ} {r : Regexp} (n : ℕ) → Times (suc n) r b p a → Matches (plus r) b p a
      a_quest :
          {b p a : List ℕ} {r : Regexp} (n : ℕ) → n ≤ 1 → Times n r b p a → Matches (quest r) b p a
      a_repeat :
          {b p a : List ℕ} {lo : ℕ} {hi : Option ℕ} {r : Regexp} (n : ℕ)
          → lo ≤ n
          → ((most : ℕ) → hi ≡ some most → n ≤ most)
          → Times n r b p a
          → Matches (repeat lo hi r) b p a
      a_concat : {b p a : List ℕ} {rs : Regexps} → InTurn rs b p a → Matches (concat rs) b p a
      an_alternate : {b p a : List ℕ} {rs : Regexps} → OneOf rs b p a → Matches (alternate rs) b p a

    -- So many times in turn.
    pub data Times : ℕ → Regexp → List ℕ → List ℕ → List ℕ → Type 0 where
      never : {r : Regexp} {b p a : List ℕ} → p ≡ [] → Times zero r b p a
      again :
          {n : ℕ} {r : Regexp} {b p a : List ℕ} (q s : List ℕ)
          → p ≡ q ++ s
          → Matches r b q (s ++ a)
          → Times n r (b ++ q) s a
          → Times (suc n) r b p a

    -- Each in turn.
    pub data InTurn : Regexps → List ℕ → List ℕ → List ℕ → Type 0 where
      done : {b p a : List ℕ} → p ≡ [] → InTurn nil b p a
      next :
          {r : Regexp} {rs : Regexps} {b p a : List ℕ} (q s : List ℕ)
          → p ≡ q ++ s
          → Matches r b q (s ++ a)
          → InTurn rs (b ++ q) s a
          → InTurn (cons r rs) b p a

    pub data OneOf : Regexps → List ℕ → List ℕ → List ℕ → Type 0 where
      first :
          {r : Regexp} {rs : Regexps} {b p a : List ℕ} → Matches r b p a → OneOf (cons r rs) b p a
      later :
          {r : Regexp} {rs : Regexps} {b p a : List ℕ} → OneOf rs b p a → OneOf (cons r rs) b p a

-- syntax.Parse with the flags of Perl, and whether a compiled pattern matches somewhere in a text.
pub record Engine : Type 0 where
  pub parse : Str → Option Regexp
  pub search : Regexp → Str → Bool

-- regexp.MatchString: `none` is an error of the parser.
unfoldable pub match_string : Engine → Str → Str → Option Bool
match_string e pattern text = elim (e.parse pattern) [
  | none ↦ none
  | some re ↦ some (e.search re text)
]

-- The documented meaning of a match, in one direction: what is found is a match of the tree.
abbrev pub Sound : ⦃f : Folding⦄ → Engine → Type 0
Sound e =
    (re : Regexp) (text : Str)
    → e.search re text ≡ true
    → (b p a : List ℕ) × (runes text ≡ b ++ (p ++ a)) × Matches re b p a
