-- ===== src/Proxy/Policy/Paths.antt =====
-- What validatePath and validateMethod admit.
use secretproxy.Prelude.{
  ℕ, ◌≤◌, ◌≡◌, refl, sym, ap, ◌∙◌, ◌≢◌, ◌↔◌, ◌⊎◌, inl, inr, Bool, true, false, ◌||◌, some, List, [],
  ◌∷◌, ◌++◌, append-nil, append_assoc, arith, ==_iff, Bool-cases, Any, ok,
}
use secretproxy.Text.{Str, str_eq, has_prefix, ends_with, split}
use secretproxy.Text.Laws.{str_eq_iff, append_of_has_prefix, has_prefix-append}
use secretproxy.Text.Splitting.{split-append}
use secretproxy.Seal.{Secret}
use secretproxy.Seal.Regex.{Engine, match_string}
use secretproxy.Proxy.Dots.{refuse_dot_segments, max_decodes}
use secretproxy.Proxy.Dots.Meaning.{IsClean, refuse_dot_segments_iff}
use secretproxy.Proxy.Policy.{prefix_admits, with_slash, validate_path, contains, validate_method}

-- The path is the prefix, or continues it behind a slash.
abbrev IsUnder : Str → Str → Type 0
IsUnder path p = (path ≡ p) ⊎ ((rest : Str) × (path ≡ with_slash p ++ rest))

has_prefix_iff : (s p : Str) → (has_prefix s p ≡ true) ↔ ((rest : Str) × (s ≡ p ++ rest))
has_prefix_iff s p = (append_of_has_prefix s p, λ (rest, e). rw e (has_prefix-append p rest))

||_iff : (a b : Bool) → ((a || b) ≡ true) ↔ ((a ≡ true) ⊎ (b ≡ true))
||_iff true b = (λ _. inl refl, λ _. refl)
||_iff false b = (λ h. inr h, λ h. elim h [ inl e ↦ cc | inr e ↦ e ])

IsUnder-iff :
    (path p : Str) → ((str_eq path p || has_prefix path (with_slash p)) ≡ true) ↔ IsUnder path p
IsUnder-iff path p =
    let (to, from) = ||_iff (str_eq path p) (has_prefix path (with_slash p)) in
    let (eq_to, eq_from) = str_eq_iff path p in
    let (pre_to, pre_from) = has_prefix_iff path (with_slash p) in
    (
      λ h. elim (to h) [ inl e ↦ inl (eq_to e) | inr e ↦ inr (pre_to e) ],
      λ h. elim h [ inl e ↦ from (inl (eq_from e)) | inr e ↦ from (inr (pre_from e)) ],
    )

prefix_admits_iff :
    (prefixes : List Str) (path : Str)
    → (prefix_admits prefixes path ≡ true) ↔ Any (IsUnder path) prefixes
unfolding prefix_admits
prefix_admits_iff [] path = (λ h. cc, λ h. absurd h)
prefix_admits_iff (p ∷ prefixes) path =
    let here = str_eq path p || has_prefix path (with_slash p) in
    let (to, from) = ||_iff here (prefix_admits prefixes path) in
    let (in_to, in_from) = IsUnder-iff path p in
    let (later_to, later_from) = prefix_admits_iff prefixes path in
    (
      λ h. elim (to h) [ inl e ↦ inl (in_to e) | inr e ↦ inr (later_to e) ],
      λ h. elim h [ inl e ↦ from (inl (in_from e)) | inr e ↦ from (inr (later_from e)) ],
    )

-- The prefixes, or where there are none the pattern, or where there is neither anything.
abbrev pub IsAllowedPath : Engine → Secret → Str → Type 0
IsAllowedPath e s path =
    ((s.allowed_path_prefixes ≢ []) × Any (IsUnder path) s.allowed_path_prefixes)
    ⊎ ((s.allowed_path_prefixes ≡ [])
        × (s.allowed_path_pattern ≢ [])
        × (match_string e s.allowed_path_pattern path ≡ some true))
    ⊎ ((s.allowed_path_prefixes ≡ []) × (s.allowed_path_pattern ≡ []))

allowed_iff :
    (e : Engine) (prefixes : List Str) (pattern path : Str) (s : Secret)
    → s.allowed_path_prefixes ≡ prefixes
    → s.allowed_path_pattern ≡ pattern
    → (validate_path e path s ≡ ok tt)
      ↔ ((refuse_dot_segments path ≡ ok tt) × IsAllowedPath e s path)
unfolding validate_path
allowed_iff e [] [] path s eh ep = ground arith
allowed_iff e [] (c ∷ pattern) path s eh ep = ground arith
allowed_iff e (p ∷ prefixes) pattern path s eh ep =
    let (to, from) = prefix_admits_iff s.allowed_path_prefixes path in
    (
      λ h. (ground arith, inl (ground arith, to (ground arith))),
      λ (clean, h). elim h [
        | inl (_, listed) ↦ let found = from listed in ground arith
        | inr other ↦ absurd (ground arith)
      ],
    )

-- validatePath admits exactly the paths that stay clean of dot segments under unescaping and that the
-- seal allows.
pub validate_path_iff :
    (e : Engine) (path : Str) (s : Secret)
    → (validate_path e path s ≡ ok tt)
      ↔ (((k : ℕ) × (k ≤ max_decodes) × IsClean k path) × IsAllowedPath e s path)
validate_path_iff e path s =
    let (to, from) =
      allowed_iff e s.allowed_path_prefixes s.allowed_path_pattern path s refl refl in
    let (clean_to, clean_from) = refuse_dot_segments_iff path in
    (λ h. (clean_to (to h).0, (to h).1), λ h. from (clean_from h.0, h.1))

init_of_ends_with : (b : ℕ) (p : Str) → ends_with b p ≡ true → (base : Str) × (p ≡ base ++ b ∷ [])
unfolding ends_with
init_of_ends_with b [] h = cc
init_of_ends_with b (c ∷ []) h = ([], ground (arith, ==_iff c b))
init_of_ends_with b (c ∷ d ∷ p) h =
    let (base, e) = init_of_ends_with b (d ∷ p) h in (c ∷ base, ap (λ t. c ∷ t) e)

-- Segment by segment, the path begins with the prefix, its last slash left out.
abbrev pub ExtendsSegments : Str → Str → Type 0
ExtendsSegments path p =
    (base : Str) × (more : List Str) × ((p ≡ base) ⊎ (p ≡ base ++ b'/' ∷ []))
    × (split b'/' path ≡ split b'/' base ++ more)

with_slash-plain : (p : Str) → ends_with b'/' p ≡ false → with_slash p ≡ p ++ b'/' ∷ []
with_slash-plain p h = rw h

with_slash-slash : (p : Str) → ends_with b'/' p ≡ true → with_slash p ≡ p
with_slash-slash p h = rw h

-- What continues a text behind a slash.
behind_slash :
    (base rest path : Str)
    → path ≡ (base ++ b'/' ∷ []) ++ rest
    → split b'/' path ≡ split b'/' base ++ split b'/' rest
behind_slash base rest path e =
    rw (e ∙ append_assoc base (b'/' ∷ []) rest) (split-append b'/' base rest)

under_plain : (path p : Str) → ends_with b'/' p ≡ false → IsUnder path p → ExtendsSegments path p
under_plain path p h (inl e) = (p, [], inl refl, rw e (sym (append-nil (split b'/' p))))
under_plain path p h (inr (rest, e)) = (
  p,
  split b'/' rest,
  inl refl,
  behind_slash p rest path (e ∙ ap (λ t. t ++ rest) (with_slash-plain p h)),
)

under_slash :
    (path p base : Str)
    → ends_with b'/' p ≡ true
    → p ≡ base ++ b'/' ∷ []
    → IsUnder path p
    → ExtendsSegments path p
under_slash path p base h eb (inl e) =
    (base, split b'/' [], inr eb, behind_slash base [] path (e ∙ eb ∙ sym (append-nil _)))
under_slash path p base h eb (inr (rest, e)) = (
  base,
  split b'/' rest,
  inr eb,
  behind_slash base rest path (e ∙ ap (λ t. t ++ rest) (with_slash-slash p h ∙ eb)),
)

under-ExtendsSegments : (path p : Str) → IsUnder path p → ExtendsSegments path p
under-ExtendsSegments path p h = elim (Bool-cases (ends_with b'/' p)) [
  | inl slash ↦ let (base, e) = init_of_ends_with b'/' p slash in under_slash path p base slash e h
  | inr plain ↦ under_plain path p plain h
]

Any-map {ℓ} :
    {A : Type ℓ} (P Q : A → Type 0) (xs : List A) → ((x : A) → P x → Q x) → Any P xs → Any Q xs
Any-map P Q [] f h = absurd h
Any-map P Q (x ∷ xs) f (inl p) = inl (f x p)
Any-map P Q (x ∷ xs) f (inr h) = inr (Any-map P Q xs f h)

-- A path accepted by a seal with prefixes begins, whole segment by whole segment, with one of them:
-- no prefix admits a path that only continues its last segment.
pub accepted_path_extends :
    (e : Engine) (path : Str) (s : Secret)
    → s.allowed_path_prefixes ≢ []
    → validate_path e path s ≡ ok tt
    → Any (ExtendsSegments path) s.allowed_path_prefixes
accepted_path_extends e path s n h = elim (((validate_path_iff e path s).0 h).1) [
  | inl (_, under) ↦
      Any-map (IsUnder path) (ExtendsSegments path) s.allowed_path_prefixes
        (under-ExtendsSegments path) under
  | inr (inl (none_listed, _, _)) ↦ absurd (n none_listed)
  | inr (inr (none_listed, _)) ↦ absurd (n none_listed)
]

pub contains_iff : (l : List Str) (m : Str) → (contains l m ≡ true) ↔ Any (λ a. a ≡ m) l
unfolding contains
contains_iff [] m = (λ h. cc, λ h. absurd h)
contains_iff (a ∷ l) m =
    let (to, from) = ||_iff (str_eq a m) (contains l m) in
    let (eq_to, eq_from) = str_eq_iff a m in
    let (later_to, later_from) = contains_iff l m in
    (
      λ h. elim (to h) [ inl e ↦ inl (eq_to e) | inr e ↦ inr (later_to e) ],
      λ h. elim h [ inl e ↦ from (inl (eq_from e)) | inr e ↦ from (inr (later_from e)) ],
    )

-- Without a list every method is admitted, with one exactly those on it.
pub validate_method_iff :
    (method : Str) (s : Secret)
    → (validate_method method s ≡ ok tt)
      ↔ ((s.allowed_methods ≡ []) ⊎ Any (λ m. m ≡ method) s.allowed_methods)
validate_method_iff method s = by_list s.allowed_methods refl
  where
    by_list :
        (l : List Str)
        → s.allowed_methods ≡ l
        → (validate_method method s ≡ ok tt)
          ↔ ((s.allowed_methods ≡ []) ⊎ Any (λ m. m ≡ method) s.allowed_methods)
    by_list [] e = (λ _. inl e, λ _. unfold validate_method in ground arith)
    by_list (m ∷ l) e =
        let (to, from) = contains_iff s.allowed_methods method in
        unfold validate_method in
        (
          λ h. inr (to (ground arith)),
          λ h. elim h [
            | inl none_listed ↦ absurd (ground arith)
            | inr listed ↦ let found = from listed in ground arith
          ],
        )
