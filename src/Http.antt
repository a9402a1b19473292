-- ===== src/Http.antt =====
-- What the program uses of net/http: headers as a map from canonical names to values.
pub mod Laws
use secretproxy.Prelude.{
  ℕ, zero, suc, ◌+◌, ◌-◌, ◌*◌, ◌/◌, ◌%◌, ◌^◌, ◌≤◌, ◌<◌, code, String, ◌≡◌, refl, sym, ap, ◌∙◌,
  ◌≡⟨◌⟩◌, ◌∎, ◌≢◌, ◌↔◌, ◌⊎◌, inl, inr, Bool, true, false, not, ◌&&◌, ◌||◌, Option, none, some, List,
  [], ◌∷◌, ◌++◌, append-nil, append_assoc, arith, ltb, leb, ◌==◌, if◌then◌else◌, ==_iff, Bool-cases,
  Option-cases, &&-eq-true, length, get_elem?, is_empty, length-append, any, all, last_or, All, Any,
  All-append, last_or-append, Result, ok, err, Check, ◌>>=◌, ◌>>◌, refuse_if, wrap, >>=-eq-ok,
  Result-cases,
}
use secretproxy.Text.{Str, str_eq, codes, contains_byte}

-- A name that is absent has no entry; an entry may be empty, which Go writes as a nil slice.
abbrev pub Header : Type 0
Header = Str → Option (List Str)

-- validHeaderFieldByte: the bytes of a token.
abbrev token_marks : Str
token_marks = codes "!#$%&'*+-.^_`|~"

unfoldable pub is_token_byte : ℕ → Bool
unfolding contains_byte
is_token_byte c =
    (leb b'0' c && leb c b'9')
    || (leb b'A' c && leb c b'Z')
    || (leb b'a' c && leb c b'z')
    || contains_byte c token_marks

-- One byte of a name, at the start of a word or inside it.
unfoldable pub title_byte : Bool → ℕ → ℕ
title_byte true c = if leb b'a' c && leb c b'z' then c - 32 else c
title_byte false c = if leb b'A' c && leb c b'Z' then c + 32 else c

unfoldable pub title : Bool → Str → Str
title upper [] = []
title upper (c ∷ s) = title_byte upper c ∷ title (title_byte upper c == b'-') s

-- textproto.CanonicalMIMEHeaderKey.
unfoldable pub canonical : Str → Str
unfolding is_token_byte title title_byte
canonical s = if all is_token_byte s then title true s else s

abbrev pub values_of : Option (List Str) → List Str
values_of none = []
values_of (some vs) = vs

abbrev pub first_of_values : List Str → Str
first_of_values [] = []
first_of_values (v ∷ vs) = v

unfoldable pub values : Header → Str → List Str
values h name = values_of (h (canonical name))

unfoldable pub get : Header → Str → Str
get h name = first_of_values (values_of (h (canonical name)))

-- A direct write, `h[key] = vs`, makes no key canonical.
unfoldable pub put : Str → Option (List Str) → Header → Header
put key entry h = λ k. if str_eq key k then entry else h k

unfoldable pub del : Str → Header → Header
unfolding put
del name h = put (canonical name) none h

unfoldable pub set : Str → Str → Header → Header
unfolding put
set name value h = put (canonical name) (some (value ∷ [])) h

-- `for _, h := range names { header.Del(h) }`.
unfoldable pub del_all : List Str → Header → Header
unfolding del
del_all [] h = h
del_all (name ∷ names) h = del_all names (del name h)
