-- ===== src/Proxy/Upstream.antt =====
-- What httputil.ReverseProxy, which forwardTo serves by, does to the header that the director left
-- before it hands the request to the transport, and which lines the transport writes of it.
pub mod Hops
use secretproxy.Prelude.{
  ℕ, zero, suc, ◌+◌, ◌-◌, ◌*◌, ◌/◌, ◌%◌, ◌^◌, ◌≤◌, ◌<◌, code, String, ◌≡◌, refl, sym, ap, ◌∙◌,
  ◌≡⟨◌⟩◌, ◌∎, ◌≢◌, ◌↔◌, ◌⊎◌, inl, inr, Bool, true, false, not, ◌&&◌, ◌||◌, Option, none, some, List,
  [], ◌∷◌, ◌++◌, append-nil, append_assoc, arith, ltb, leb, ◌==◌, if◌then◌else◌, ==_iff, Bool-cases,
  Option-cases, &&-eq-true, length, get_elem?, is_empty, length-append, any, all, last_or, All, Any,
  All-append, last_or-append, Result, ok, err, Check, ◌>>=◌, ◌>>◌, refuse_if, wrap, >>=-eq-ok,
  Result-cases, Ensures, Ensures->>=, Ensures-ok,
}
use secretproxy.Text.{Str, codes, lower_byte, split, trim_left, trim_right, str_eq}
use secretproxy.Net.{split_host_port}
use secretproxy.Http.{Header, values_of, get, put, del, set, del_all}
use secretproxy.Proxy.Ingress.{x_forwarded_for}

-- hopHeaders.
abbrev pub hop_headers : List Str
hop_headers =
    codes "Connection"
    ∷ codes "Proxy-Connection"
    ∷ codes "Keep-Alive"
    ∷ codes "Proxy-Authenticate"
    ∷ codes "Proxy-Authorization"
    ∷ codes "Te"
    ∷ codes "Trailer"
    ∷ codes "Transfer-Encoding"
    ∷ codes "Upgrade"
    ∷ []

abbrev pub connection : Str
connection = codes "Connection"

abbrev pub user_agent : Str
user_agent = codes "User-Agent"

abbrev pub te : Str
te = codes "Te"

abbrev upgrade : Str
upgrade = codes "Upgrade"

-- textproto.TrimString.
unfoldable pub trim_string : Str → Str
unfolding trim_left trim_right
trim_string s =
    let blank = λ (c : ℕ). c == b' ' || c == 9 || c == b'\n' || c == 13 in
    trim_right blank (trim_left blank s)

unfoldable pub tokens : List Str → List Str
tokens [] = []
tokens (p ∷ parts) =
    let rest = tokens parts in if is_empty (trim_string p) then rest else trim_string p ∷ rest

-- The names that the values of Connection list.
unfoldable pub nominated : List Str → List Str
nominated [] = []
nominated (v ∷ vs) = tokens (split b',' v) ++ nominated vs

unfoldable pub remove_hop_by_hop : Header → Header
remove_hop_by_hop h = del_all hop_headers (del_all (nominated (values_of (h connection))) h)

-- httpguts.HeaderValuesContainsToken.
unfoldable pub equal_fold : Str → Str → Bool
equal_fold [] [] = true
equal_fold (a ∷ s) (b ∷ t) = lower_byte a == lower_byte b && equal_fold s t
equal_fold _ _ = false

unfoldable pub trim_blanks : Str → Str
unfolding trim_left trim_right
trim_blanks s = let blank = λ (c : ℕ). c == b' ' || c == 9 in trim_right blank (trim_left blank s)

unfoldable pub has_token : Str → List Str → Bool
has_token token [] = false
has_token token (v ∷ vs) =
    any (λ p. equal_fold (trim_blanks p) token) (split b',' v) || has_token token vs

unfoldable pub upgrade_type : Header → Str
upgrade_type h = if has_token upgrade (values_of (h connection)) then get h upgrade else []

-- strings.Join with a comma and a space.
unfoldable pub join : List Str → Str
join [] = []
join (v ∷ []) = v
join (v ∷ w ∷ vs) = v ++ b',' ∷ b' ' ∷ join (w ∷ vs)

abbrev pub with_prior : List Str → Str → Str
with_prior [] client_ip = client_ip
with_prior (v ∷ vs) client_ip = join (v ∷ vs) ++ b',' ∷ b' ' ∷ client_ip

-- No address in a remote address that does not split; an entry with no values means not to write one.
abbrev pub add_client : Option (Str × Str) → Option (List Str) → Header → Header
add_client none prior h = h
add_client (some (ip, port)) none h = set x_forwarded_for ip h
add_client (some (ip, port)) (some []) h = h
add_client (some (ip, port)) (some (v ∷ vs)) h = set x_forwarded_for (with_prior (v ∷ vs) ip) h

abbrev pub keep_trailers : List Str → Header → Header
keep_trailers client_te h =
    if has_token (codes "trailers") client_te then set te (codes "trailers") h else h

abbrev keep_upgrade : Str → Header → Header
keep_upgrade [] h = h
keep_upgrade (c ∷ kind) h = set upgrade (c ∷ kind) (set connection upgrade h)

-- The transport writes its own User-Agent where there is none, and none for an empty one.
abbrev pub no_default_agent : Option (List Str) → Header → Header
no_default_agent none h = set user_agent [] h
no_default_agent (some vs) h = h

-- The client's header, and the one that the director made of it.
unfoldable pub upstream_header : (remote_addr : Str) → Header → Header → Header
upstream_header remote_addr client h =
    let kept = keep_trailers (values_of (client te)) (remove_hop_by_hop h) in
    let upgraded = keep_upgrade (upgrade_type h) kept in
    let sourced = add_client (split_host_port remote_addr) (upgraded x_forwarded_for) upgraded in
    no_default_agent (sourced user_agent) sourced

abbrev pub accept_encoding : Str
accept_encoding = codes "Accept-Encoding"

-- What Request.write leaves out of the header map, since it writes these lines by the request's own fields.
-- User-Agent, which it writes by the map's first value, is kept in the map here.
abbrev pub own_lines : List Str
own_lines = codes "Host" ∷ codes "Content-Length" ∷ codes "Transfer-Encoding" ∷ codes "Trailer" ∷ []

-- Whether http.Transport asks for gzip by a line of its own.
unfoldable pub asks_gzip : (method : Str) → Header → Bool
asks_gzip method h =
    is_empty (get h accept_encoding)
    && (is_empty (get h (codes "Range")) && not (str_eq method (codes "HEAD")))

abbrev pub with_gzip : Bool → Header → Header
with_gzip asked h =
    if asked
    then put accept_encoding (some (values_of (h accept_encoding) ++ codes "gzip" ∷ [])) h
    else h

-- The header lines of HTTP/1.1 that http.Transport writes of a header map. Blanks around a value are trimmed
-- on the way, which is left out here.
unfoldable pub transport_header : (method : Str) → Header → Header
transport_header method h = del_all own_lines (with_gzip (asks_gzip method h) h)
