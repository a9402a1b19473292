-- ===== src/Client/Wire.antt =====
-- The proxy reads what the client wrote.
use secretproxy.Prelude.{◌≡◌, refl, ap, ◌∙◌, ◌≢◌, false, some, [], ◌∷◌, ◌++◌, All}
use secretproxy.Text.{Str, codes, Unicode, str_eq}
use secretproxy.Text.Laws.{str_eq_iff}
use secretproxy.Text.Trimming.{IsPlain}
use secretproxy.Http.{Header, get, values, values_of, first_of_values, put, set, canonical}
use secretproxy.Http.Laws.{put_self, put_other}
use secretproxy.Proxy.Server.{
  Url, forward_path, header_upstream_url, header_sealed_secret, header_auth_bearer,
}
use secretproxy.Proxy.Override.{extract_bearer, bearer_prefix}
use secretproxy.Proxy.Override.Bearer.{extract_bearer-token}
use secretproxy.Client.{Transport, Outgoing, round_trip, set_if_given}

-- The header under its name, after it was set.
set-canonical :
    (name value : Str) (h : Header) → set name value h (canonical name) ≡ some (value ∷ [])
unfolding set
set-canonical name value h = put_self (canonical name) (some (value ∷ [])) h

set_other :
    (name value key : Str) (h : Header) → canonical name ≢ key → set name value h key ≡ h key
unfolding set
set_other name value key h n = put_other (canonical name) key (some (value ∷ [])) h n

set_if_given-set :
    (name given value : Str) (h : Header)
    → given ≢ []
    → set_if_given name given value h ≡ set name value h
set_if_given-set name [] value h n = absurd (n refl)
set_if_given-set name (c ∷ given) value h n = refl

-- The three headers have different keys.
apart : (a b : Str) → str_eq a b ≡ false → a ≢ b
apart a b h e = let same = (str_eq_iff a b).1 e in cc

wire_names_apart :
    (canonical header_auth_bearer ≢ canonical header_sealed_secret)
    × (canonical header_auth_bearer ≢ canonical header_upstream_url)
    × (canonical header_sealed_secret ≢ canonical header_upstream_url)
unfolding canonical secretproxy.Http.title secretproxy.Http.title_byte
    secretproxy.Http.is_token_byte str_eq secretproxy.Text.contains_byte
wire_names_apart = (apart _ _ refl, apart _ _ refl, apart _ _ refl)

module _ (string_of : Url → Str) (t : Transport) (req : Outgoing) (sealed : t.sealed_secret ≢ [])
    (with_token : t.auth ≢ []) where
  upstream_header : Header
  upstream_header = set header_upstream_url (string_of req.url) req.header

  sealed_header : Header
  sealed_header = set header_sealed_secret t.sealed_secret upstream_header

  header_sent :
      (round_trip string_of t req).header
      ≡ set header_auth_bearer (bearer_prefix ++ t.auth) sealed_header
  unfolding round_trip upstream_header sealed_header
  header_sent =
      set_if_given-set header_auth_bearer t.auth (bearer_prefix ++ t.auth)
        (set_if_given header_sealed_secret t.sealed_secret t.sealed_secret
          (set header_upstream_url (string_of req.url) req.header))
        with_token
      ∙ ap (set header_auth_bearer (bearer_prefix ++ t.auth)) (
          set_if_given-set header_sealed_secret t.sealed_secret t.sealed_secret
            (set header_upstream_url (string_of req.url) req.header) sealed)

  upstream_sent :
      (round_trip string_of t req).header (canonical header_upstream_url)
      ≡ some (string_of req.url ∷ [])
  unfolding upstream_header sealed_header
  upstream_sent =
      let (_, bearer_upstream, sealed_upstream) = wire_names_apart in
      rw header_sent (
        set_other header_auth_bearer (bearer_prefix ++ t.auth) (canonical header_upstream_url)
          sealed_header bearer_upstream
        ∙ set_other header_sealed_secret t.sealed_secret (canonical header_upstream_url)
            upstream_header sealed_upstream
        ∙ set-canonical header_upstream_url (string_of req.url) req.header)

  sealed_sent :
      (round_trip string_of t req).header (canonical header_sealed_secret)
      ≡ some (t.sealed_secret ∷ [])
  unfolding sealed_header
  sealed_sent =
      let (bearer_sealed, _, _) = wire_names_apart in
      rw header_sent (
        set_other header_auth_bearer (bearer_prefix ++ t.auth) (canonical header_sealed_secret)
          sealed_header bearer_sealed
        ∙ set-canonical header_sealed_secret t.sealed_secret upstream_header)

  bearer_sent :
      (round_trip string_of t req).header (canonical header_auth_bearer)
      ≡ some ((bearer_prefix ++ t.auth) ∷ [])
  bearer_sent =
      rw header_sent (set-canonical header_auth_bearer (bearer_prefix ++ t.auth) sealed_header)

  other_kept :
      (key : Str)
      → canonical header_upstream_url ≢ key
      → canonical header_sealed_secret ≢ key
      → canonical header_auth_bearer ≢ key
      → (round_trip string_of t req).header key ≡ req.header key
  unfolding upstream_header sealed_header
  other_kept key n n' n'' = rw header_sent (
      set_other header_auth_bearer (bearer_prefix ++ t.auth) key sealed_header n''
      ∙ set_other header_sealed_secret t.sealed_secret key upstream_header n'
      ∙ set_other header_upstream_url (string_of req.url) key req.header n)

-- A request of a transport with a seal and a token of ASCII without white space goes to the forward
-- endpoint with its method, and the proxy reads from it the URL of the caller's request, the one seal
-- and the token; every other header is the caller's.
pub round_trip_read :
    ⦃u : Unicode⦄
    → (string_of : Url → Str) (t : Transport) (req : Outgoing) → t.sealed_secret ≢ []
    → t.auth ≢ []
    → All IsPlain t.auth
    → let sent = round_trip string_of t req in
      (sent.url.path ≡ forward_path)
      × (sent.method ≡ req.method)
      × (get sent.header header_upstream_url ≡ string_of req.url)
      × (values sent.header header_sealed_secret ≡ t.sealed_secret ∷ [])
      × (extract_bearer (get sent.header header_auth_bearer) ≡ some t.auth)
      × ((key : Str)
          → canonical header_upstream_url ≢ key
          → canonical header_sealed_secret ≢ key
          → canonical header_auth_bearer ≢ key
          → sent.header key ≡ req.header key)
unfolding get values
round_trip_read string_of t req sealed with_token plain = (
  unfold round_trip in refl,
  unfold round_trip in refl,
  rw (upstream_sent string_of t req sealed with_token),
  rw (sealed_sent string_of t req sealed with_token),
  rw (bearer_sent string_of t req sealed with_token) (extract_bearer-token t.auth with_token plain),
  other_kept string_of t req sealed with_token,
)
