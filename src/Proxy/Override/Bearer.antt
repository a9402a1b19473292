-- ===== src/Proxy/Override/Bearer.antt =====
-- Reading the bearer that a client presents.
use secretproxy.Prelude.{
  ℕ, ◌<◌, ◌≡◌, refl, ap, ◌∙◌, ◌≢◌, none, some, [], ◌∷◌, ◌++◌, append-nil, arith, All, All-append,
}
use secretproxy.Text.{Str, Unicode, strip_prefix, cut, trim_space, is_space}
use secretproxy.Text.Splitting.{Lacks}
use secretproxy.Text.Trimming.{IsPlain, trim_space-plain}
use secretproxy.Encoding.Base64
use secretproxy.Encoding.Base64.{symbol}
use secretproxy.Encoding.Base64.Alphabet.{encode-All, encode-ne-nil}
use secretproxy.Encoding.Hex.{IsByte}
use secretproxy.Proxy.Override.{bearer_prefix, basic_prefix, password, extract_bearer}

strip_prefix-append : (p s : Str) → strip_prefix (p ++ s) p ≡ some s
unfolding strip_prefix
strip_prefix-append [] s = refl
strip_prefix-append (c ∷ p) s = ground (arith, strip_prefix-append p s)

cut-append : (sep : ℕ) (s rest : Str) → Lacks sep s → cut sep (s ++ sep ∷ rest) ≡ some (s, rest)
unfolding cut
cut-append sep [] rest h = ground arith
cut-append sep (c ∷ s) rest (n, h) = ground (arith, cut-append sep s rest h)

symbol-IsPlain : (n : ℕ) → n < 64 → IsPlain (symbol n)
unfolding symbol is_space
symbol-IsPlain n h = ground arith

pub encode-IsPlain : (s : Str) → All IsByte s → All IsPlain (Base64.encode s)
unfolding is_space
encode-IsPlain s h = encode-All IsPlain symbol-IsPlain (omega arith, refl) s h

pub trim_plain : ⦃u : Unicode⦄ → (s : Str) → s ≢ [] → All IsPlain s → trim_space s ≡ s
trim_plain s n h = rw (append-nil s) at (trim_space-plain [] s [] n h refl refl)

module _ ⦃u : Unicode⦄ where
  with_bearer :
      (h token : Str)
      → strip_prefix h bearer_prefix ≡ some token
      → extract_bearer h ≡ some (trim_space token)
  unfolding extract_bearer
  with_bearer h token e = ground arith

  with_basic :
      (h raw : Str)
      → strip_prefix h bearer_prefix ≡ none
      → strip_prefix h basic_prefix ≡ some raw
      → extract_bearer h ≡ password (Base64.decode (trim_space raw))
  unfolding extract_bearer
  with_basic h raw e e' = ground arith

-- A token of ASCII that is not empty and has no white space is read back from behind the prefix that
-- the client library writes.
pub extract_bearer-token :
    ⦃u : Unicode⦄
    → (token : Str) → token ≢ []
    → All IsPlain token
    → extract_bearer (bearer_prefix ++ token) ≡ some token
extract_bearer-token token n h =
    with_bearer (bearer_prefix ++ token) token (strip_prefix-append bearer_prefix token)
    ∙ ap some (trim_plain token n h)

not_bearer : (s : Str) → strip_prefix (basic_prefix ++ s) bearer_prefix ≡ none
unfolding strip_prefix
not_bearer s = refl

password-cut :
    (user pass : Str) → Lacks b':' user → password (some (user ++ b':' ∷ pass)) ≡ some pass
password-cut user pass free = let e = cut-append b':' user pass free in ground arith

append-ne-nil : (s : Str) (c : ℕ) (rest : Str) → s ++ c ∷ rest ≢ []
append-ne-nil [] c rest = cc
append-ne-nil (d ∷ s) c rest = cc

-- HTTP Basic: of a user, whose bytes are no colons, and a password of any bytes, the password is read
-- back.
extract_bearer-basic :
    ⦃u : Unicode⦄
    → (user pass : Str) → All IsByte user
    → All IsByte pass
    → Lacks b':' user
    → extract_bearer (basic_prefix ++ Base64.encode (user ++ b':' ∷ pass)) ≡ some pass
extract_bearer-basic user pass hu hp free =
    let text : Str = user ++ b':' ∷ pass in
    let in_bytes = All-append IsByte user (b':' ∷ pass) hu (omega arith, hp) in
    let kept =
      trim_plain (Base64.encode text) (encode-ne-nil text (append-ne-nil user b':' pass))
        (encode-IsPlain text in_bytes) in
    let raw = Base64.encode text in
    with_basic (basic_prefix ++ raw) raw (not_bearer raw) (strip_prefix-append basic_prefix raw)
    ∙ rw (kept, Base64.decode-encode text in_bytes) (password-cut user pass free)
