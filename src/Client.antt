-- ===== src/Client.antt =====
-- pkg/client/client.go: NewTransport with its options, and RoundTrip up to the base transport.
pub mod Wire
use secretproxy.Prelude.{
  ℕ, zero, suc, ◌+◌, ◌-◌, ◌*◌, ◌/◌, ◌%◌, ◌^◌, ◌≤◌, ◌<◌, code, String, ◌≡◌, refl, sym, ap, ◌∙◌,
  ◌≡⟨◌⟩◌, ◌∎, ◌≢◌, ◌↔◌, ◌⊎◌, inl, inr, Bool, true, false, not, ◌&&◌, ◌||◌, Option, none, some, List,
  [], ◌∷◌, ◌++◌, append-nil, append_assoc, arith, ltb, leb, ◌==◌, if◌then◌else◌, ==_iff, Bool-cases,
  Option-cases, &&-eq-true, length, get_elem?, is_empty, length-append, any, all, last_or, All, Any,
  All-append, last_or-append, Result, ok, err, Check, ◌>>=◌, ◌>>◌, refuse_if, wrap, >>=-eq-ok,
  Result-cases, Ensures, Ensures->>=, Ensures-ok,
}
use secretproxy.Text.{Str, codes, str_eq}
use secretproxy.Http.{Header, set}
use secretproxy.Proxy.Server.{
  Url, forward_path, header_upstream_url, header_sealed_secret, header_auth_bearer,
}

-- The TLS configuration of the base transport, of which the option says whether the proxy's certificate
-- is verified; `none` is the default, which verifies it.
pub record Transport : Type 0 where
  pub insecure_skip_verify : Option Bool
  pub proxy_url : Url
  pub sealed_secret : Str
  pub auth : Str

pub data ClientError : Type 0 where
  bad_proxy_url : ClientError
  bad_scheme : Str → ClientError

abbrev pub ClientOption : Type 0
ClientOption = Transport → Transport

unfoldable pub with_sealed_secret : Str → ClientOption
with_sealed_secret blob t = record t { sealed_secret = blob }

unfoldable pub with_auth : Str → ClientOption
with_auth token t = record t { auth = token }

unfoldable pub with_proxy_tls : Bool → ClientOption
with_proxy_tls insecure t = record t { insecure_skip_verify = some insecure }

abbrev pub apply_all : List ClientOption → Transport → Transport
apply_all [] t = t
apply_all (o ∷ options) t = apply_all options (o t)

abbrev from_url : Option Url → List ClientOption → Result ClientError Transport
from_url none options = err bad_proxy_url
from_url (some u) options =
    if not (str_eq u.scheme (codes "http")) && not (str_eq u.scheme (codes "https"))
    then err (bad_scheme u.scheme)
    else ok (
        apply_all options
          (record { insecure_skip_verify = none; proxy_url = u; sealed_secret = []; auth = [] }))

-- url.Parse is the first argument.
unfoldable pub new_transport :
    (Str → Option Url) → Str → List ClientOption → Result ClientError Transport
new_transport parse_url proxy_url options = from_url (parse_url proxy_url) options

-- A request by its parts that RoundTrip reads or writes; the method and the body are kept.
pub record Outgoing : Type 0 where
  pub method : Str
  pub url : Url
  pub host : Str
  pub header : Header

abbrev pub set_if_given : Str → Str → Str → Header → Header
set_if_given name given value h = if is_empty given then h else set name value h

-- URL.String is the first argument; the answer is what the base transport is given.
unfoldable pub round_trip : (Url → Str) → Transport → Outgoing → Outgoing
round_trip string_of t req = record {
  method = req.method;
  url = record t.proxy_url { path = forward_path; raw_query = []; fragment = [] };
  host = t.proxy_url.host;
  header = set_if_given header_auth_bearer t.auth (codes "Bearer " ++ t.auth) (
      set_if_given header_sealed_secret t.sealed_secret t.sealed_secret
        (set header_upstream_url (string_of req.url) req.header));
}
