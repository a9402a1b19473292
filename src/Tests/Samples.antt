-- ===== src/Tests/Samples.antt =====
-- A small world: an engine that knows one kind of pattern, a box that tags a message with a byte of
-- the key, a codec of one secret, and the request of a client of it.
use secretproxy.Prelude.{
  ℕ, ◌%◌, ◌<◌, ◌≡◌, refl, sym, ap, ◌∙◌, inl, inr, Bool, true, false, Option, none, some, List, [],
  ◌∷◌, ◌++◌, append-nil, arith, ltb, ◌==◌, if◌then◌else◌, Bool-cases, Option-cases, length, all,
  All,
}
use secretproxy.Text.{Str, codes, Unicode, str_eq}
use secretproxy.Text.Laws.{eq_of_str_eq}
use secretproxy.Text.Runes.{runes}
use secretproxy.Encoding.Hex.{IsByte}
use secretproxy.Encoding.Base64
use secretproxy.Net.Addr.{v4, Parsers}
use secretproxy.Http.{Header}
use secretproxy.Seal.{PrivateKey, PublicKey, Secret}
use secretproxy.Seal.Regex.{
  Regexp, begin_text, end_text, literal, concat, Regexps, nil, cons, Engine, Folding, Sound,
  Matches, done, next, at_begin_text, at_end_text, a_literal, a_concat, Spells,
}
use secretproxy.Seal.Validate.{thf}
use secretproxy.Seal.Envelope.{Crypto, Codec, Lib}
use secretproxy.Seal.Envelope.Opening.{IsDigest}
use secretproxy.Seal.Envelope.Sealing.{IsCorrectBox, ReadsBack, HasOverhead}
use secretproxy.Proxy.Server.{Server, Url}
use secretproxy.Proxy.Forward.{World, Request}

instance abbrev pub plain : Unicode
plain = record { lower = λ s. s; trim = λ s. s }

instance abbrev pub no_folding : Folding
no_folding = record { same_fold = λ a b. a == b }

-- The tree of `^word$`.
abbrev pub whole_word : List ℕ → Regexp
whole_word word = concat (cons begin_text (cons (literal false word) (cons end_text nil)))

abbrev pub charges : Str
charges = codes "/v1/charges"

abbrev zeros : Str
zeros =
    0 ∷ 0 ∷ 0 ∷ 0 ∷ 0 ∷ 0 ∷ 0 ∷ 0 ∷ 0 ∷ 0 ∷ 0 ∷ 0 ∷ 0 ∷ 0 ∷ 0 ∷ 0 ∷ 0 ∷ 0 ∷ 0 ∷ 0 ∷ 0 ∷ 0 ∷ 0 ∷ 0
    ∷ 0 ∷ 0 ∷ 0 ∷ 0 ∷ 0 ∷ 0 ∷ 0 ∷ []

abbrev words_end : Regexps → Bool
words_end (cons end_text nil) = true
words_end _ = false

abbrev words_literal : Regexps → Option (List ℕ)
words_literal (cons (literal false word) rs) = if words_end rs then some word else none
words_literal _ = none

abbrev words_begin : Regexps → Option (List ℕ)
words_begin (cons begin_text rs) = words_literal rs
words_begin _ = none

abbrev word_of : Regexp → Option (List ℕ)
word_of (concat rs) = words_begin rs
word_of _ = none

words_end_lem : (rs : Regexps) → words_end rs ≡ true → rs ≡ cons end_text nil
words_end_lem (cons end_text nil) h = refl
words_end_lem _ h = cc

words_literal_lem :
    (rs : Regexps) (word : List ℕ)
    → words_literal rs ≡ some word
    → rs ≡ cons (literal false word) (cons end_text nil)
words_literal_lem (cons (literal false w) rs) word h = elim (Bool-cases (words_end rs)) [
  | inl e ↦ let last = words_end_lem rs e in ground arith
  | inr e ↦ absurd (ground arith)
]
words_literal_lem _ word h = cc

words_begin_lem :
    (rs : Regexps) (word : List ℕ)
    → words_begin rs ≡ some word
    → rs ≡ cons begin_text (cons (literal false word) (cons end_text nil))
words_begin_lem (cons begin_text rs) word h = ap (cons begin_text) (words_literal_lem rs word h)
words_begin_lem _ word h = cc

word_of_lem : (re : Regexp) (word : List ℕ) → word_of re ≡ some word → re ≡ whole_word word
word_of_lem (concat rs) word h = ap concat (words_begin_lem rs word h)
word_of_lem _ word h = cc

abbrev is_word_of : Option (List ℕ) → List ℕ → Bool
is_word_of none text = false
is_word_of (some word) text = str_eq text word

-- An engine of one pattern: it searches for a word as the whole text.
abbrev pub engine : Engine
engine = record {
  parse = λ p. if str_eq p (codes "^/v1/charges$") then some (whole_word charges) else none;
  search = λ re text. is_word_of (word_of re) (runes text);
}

Spells-self : (word : List ℕ) → Spells false word word
Spells-self [] = tt
Spells-self (c ∷ word) = (refl, Spells-self word)

whole_word-Matches : (word : List ℕ) → Matches (whole_word word) [] word []
whole_word-Matches word = a_concat (
    next [] word refl (at_begin_text refl refl) (
      next word [] (sym (append-nil word)) (a_literal (Spells-self word))
        (next [] [] refl (at_end_text refl refl) (done refl))))

pub engine-Sound : Sound engine
engine-Sound re text h = elim (Option-cases (word_of re)) [
  | inl other ↦ absurd (ground arith)
  | inr (word, e) ↦
      let same = eq_of_str_eq (runes text) word (ground arith) in
      (
        [],
        word,
        [],
        same ∙ sym (append-nil word),
        rw (word_of_lem re word e) (whole_word-Matches word),
      )
]

abbrev tag : PublicKey → ℕ
tag k = elim k.bytes [ [] ↦ 0 | c ∷ s ↦ c % 256 ]

abbrev open_with : ℕ → Str → Option Str
open_with t [] = none
open_with t (c ∷ message) = if c == t then some message else none

abbrev all_bytes : Str → Bool
all_bytes s = all (λ c. ltb c 256) s

abbrev pub crypto : Crypto
crypto = record {
  public_of = λ k. record { bytes = k.bytes };
  seal_anonymous = λ message k random. if all_bytes message then some (tag k ∷ message) else none;
  open_anonymous = λ sealed k priv. open_with (tag k) sealed;
  sha256 = λ t. (length t % 256) ∷ zeros;
}

all_bytes-IsByte : (s : Str) → all_bytes s ≡ true → All IsByte s
all_bytes-IsByte [] h = tt
all_bytes-IsByte (c ∷ s) h = (ground arith, all_bytes-IsByte s (ground arith))

tag-IsByte : (k : PublicKey) → tag k < 256
tag-IsByte k = by_bytes k.bytes
  where
    by_bytes : (s : Str) → (elim s [ [] ↦ 0 | c ∷ r ↦ c % 256 ]) < 256
    by_bytes [] = omega arith
    by_bytes (c ∷ s) = omega arith

boxed :
    (t : ℕ) (message sealed : Str)
    → (if all_bytes message then some (t ∷ message) else none) ≡ some sealed
    → (sealed ≡ t ∷ message) × (all_bytes message ≡ true)
boxed t message sealed h = elim (Bool-cases (all_bytes message)) [
  | inl bytes ↦ (ground arith, bytes)
  | inr other ↦ absurd (ground arith)
]

open_with-tagged : (t : ℕ) (message : Str) → open_with t (t ∷ message) ≡ some message
open_with-tagged t message = ground arith

pub crypto-IsCorrectBox : IsCorrectBox crypto
crypto-IsCorrectBox message k random sealed h =
    let t = tag (crypto.public_of k) in
    let (same, bytes) = boxed t message sealed h in
    rw same (
      open_with-tagged t message,
      (tag-IsByte (crypto.public_of k), all_bytes-IsByte message bytes),
    )

pub crypto-HasOverhead : HasOverhead crypto
crypto-HasOverhead message key random sealed h empty =
    let (same, bytes) = boxed (tag key) message sealed h in cc

pub crypto-IsDigest : IsDigest crypto
crypto-IsDigest t = (refl, omega arith)

abbrev pub stripe : Secret
stripe = record {
  bearer_auth = some (record { digest = Base64.encode (crypto.sha256 (codes "client-token")) });
  no_auth = none;
  inject_header = some (record {
    token = codes "sk_live_1";
    format = [];
    header_name = [];
    allowed_formats = codes "Token %s" ∷ [];
    allowed_header_names = [];
  });
  allowed_hosts = codes "api.stripe.com" ∷ [];
  allowed_host_pattern = [];
  allowed_path_prefixes = charges ∷ [];
  allowed_path_pattern = [];
  allowed_methods = codes "POST" ∷ [];
  name = codes "stripe";
  euid = codes "e1";
}

-- A codec of this one secret.
abbrev pub codec : Codec
codec = record {
  marshal = λ s. some (codes "stripe");
  unmarshal = λ body. if str_eq body (codes "stripe") then some stripe else none;
}

pub codec-ReadsBack : ReadsBack codec stripe
codec-ReadsBack body e = rw (← body_eq e) (unfold str_eq in refl)
  where
    body_eq : {body : Str} → some (codes "stripe") ≡ some body → codes "stripe" ≡ body
    body_eq e = cc

abbrev pub lib : Lib
lib = record { crypto = crypto; codec = codec; engine = engine; map_order = thf }

abbrev pub key : PrivateKey
key = record { bytes = 5 ∷ [] }

abbrev pub charge_url : Url
charge_url = record {
  scheme = codes "https";
  opaque = [];
  user = some (codes "me");
  host = codes "API.stripe.com";
  path = codes "/v1/charges/ch_1";
  raw_path = [];
  raw_query = [];
  fragment = [];
}

abbrev pub parsers : Parsers
parsers = record {
  parse_addr = λ s. if str_eq s (codes "10.0.0.7") then some (v4 0x0a000007) else none;
  parse_prefix = λ s. none;
}

abbrev pub world : World
world = record {
  lib = lib;
  parsers = parsers;
  parse_url = λ s.
      if str_eq s (codes "https://me@API.stripe.com/v1/charges/ch_1")
      then some charge_url
      else none;
  decode_override = λ s. none;
  sprintf = λ format token. codes "Bearer " ++ token;
}

abbrev pub server : Server
server = record {
  private_key = key;
  previous_private_key = none;
  allow_no_auth = false;
  allow_passthrough = true;
  filtered_headers = codes "Cookie" ∷ [];
  disable_x_forwarded_for = true;
  self_hostnames = [];
  allowed_client_cidrs = record { addr = v4 0x0a000000; bits = 8 } ∷ [];
  trust_tls_terminator = true;
  trust_cloudflare_headers = false;
  max_request_bytes = 1000;
  disable_egress_guard = false;
}

-- The header map of a list of lines, by canonical name.
abbrev pub of_lines : List (Str × List Str) → Header
of_lines [] wanted = none
of_lines ((name, vs) ∷ lines) wanted =
    let rest = of_lines lines wanted in if str_eq name wanted then some vs else rest

abbrev pub forwarded_for : Str × List Str
forwarded_for = (codes "X-Forwarded-For", codes "6.6.6.6" ∷ codes "6.6.6.6, 10.0.0.7" ∷ [])

abbrev pub upstream_line : Str × List Str
upstream_line = (codes "X-Upstream-Url", codes "https://me@API.stripe.com/v1/charges/ch_1" ∷ [])

abbrev pub blob : Str
blob = Base64.encode (5 ∷ codes "stripe")

abbrev pub sealed_lines : List (Str × List Str)
sealed_lines =
    forwarded_for
    ∷ upstream_line
    ∷ (codes "X-Sealed-Secret", blob ∷ [])
    ∷ (codes "X-Auth-Bearer", codes "Bearer client-token" ∷ [])
    ∷ (codes "Authorization", codes "Bearer forged" ∷ [])
    ∷ []

abbrev pub request : Request
request = record {
  method = codes "POST";
  content_length = some 12;
  remote_addr = codes "192.0.2.1:443";
  header = of_lines sealed_lines;
}

abbrev pub bare_request : Request
bare_request = record request { header = of_lines (forwarded_for ∷ upstream_line ∷ []) }
