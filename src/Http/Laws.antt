-- ===== src/Http/Laws.antt =====
-- Reading a header after writes and deletions.
use secretproxy.Prelude.{◌≡◌, refl, ◌∙◌, ◌≢◌, inl, inr, Option, none, List, [], ◌∷◌, arith, Any}
use secretproxy.Text.{Str}
use secretproxy.Text.Laws.{str_eq_refl, str_eq_iff}
use secretproxy.Http.{Header, canonical, put, del, del_all}

abbrev pub IsAmong : Str → List Str → Type 0
IsAmong key names = Any (λ name. canonical name ≡ key) names

pub put_self : (key : Str) (entry : Option (List Str)) (h : Header) → put key entry h key ≡ entry
unfolding put
put_self key entry h = rw (str_eq_refl key)

pub put_other :
    (key other : Str) (entry : Option (List Str)) (h : Header)
    → key ≢ other
    → put key entry h other ≡ h other
unfolding put
put_other key other entry h n = ground (arith, str_eq_iff key other)

del-none : (name key : Str) (h : Header) → h key ≡ none → del name h key ≡ none
unfolding del put
del-none name key h e = ground arith

pub del_all-none :
    (names : List Str) (key : Str) (h : Header) → h key ≡ none → del_all names h key ≡ none
unfolding del_all
del_all-none [] key h e = e
del_all-none (name ∷ names) key h e = del_all-none names key (del name h) (del-none name key h e)

-- A deleted name has no entry.
pub del_all-among :
    (names : List Str) (key : Str) (h : Header) → IsAmong key names → del_all names h key ≡ none
unfolding del_all del
del_all-among [] key h x = elim x [ ]
del_all-among (name ∷ names) key h (inl e) =
    del_all-none names key (del name h) (rw (← e) (put_self (canonical name) none h))
del_all-among (name ∷ names) key h (inr later) = del_all-among names key (del name h) later

-- Any other name keeps its values.
pub del_all_other :
    (names : List Str) (key : Str) (h : Header)
    → (IsAmong key names → ⊥)
    → del_all names h key ≡ h key
unfolding del_all del
del_all_other [] key h n = refl
del_all_other (name ∷ names) key h n =
    del_all_other names key (del name h) (λ m. n (inr m))
    ∙ put_other (canonical name) key none h (λ e. n (inl e))
