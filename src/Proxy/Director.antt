-- ===== src/Proxy/Director.antt =====
-- proxy.go: the target and the director of forwardTo, which make the outbound request.
pub mod Headers
use secretproxy.Prelude.{
  ℕ, zero, suc, ◌+◌, ◌-◌, ◌*◌, ◌/◌, ◌%◌, ◌^◌, ◌≤◌, ◌<◌, code, String, ◌≡◌, refl, sym, ap, ◌∙◌,
  ◌≡⟨◌⟩◌, ◌∎, ◌≢◌, ◌↔◌, ◌⊎◌, inl, inr, Bool, true, false, not, ◌&&◌, ◌||◌, Option, none, some, List,
  [], ◌∷◌, ◌++◌, append-nil, append_assoc, arith, ltb, leb, ◌==◌, if◌then◌else◌, ==_iff, Bool-cases,
  Option-cases, &&-eq-true, length, get_elem?, is_empty, length-append, any, all, last_or, All, Any,
  All-append, last_or-append, Result, ok, err, Check, ◌>>=◌, ◌>>◌, refuse_if, wrap, >>=-eq-ok,
  Result-cases,
}
use secretproxy.Text.{Str, codes, Unicode, to_lower}
use secretproxy.Http.{Header, put, del, set, del_all}
use secretproxy.Proxy.Policy.{strip_port}
use secretproxy.Proxy.Ingress.{x_forwarded_for, cloudflare_trust_headers}
use secretproxy.Proxy.Server.{
  Server, Url, header_upstream_url, header_sealed_secret, header_auth_bearer,
}

abbrev pub hop_by_hop_headers : List Str
hop_by_hop_headers =
    codes "Connection"
    ∷ codes "Proxy-Connection"
    ∷ codes "Keep-Alive"
    ∷ codes "Te"
    ∷ codes "Trailer"
    ∷ codes "Transfer-Encoding"
    ∷ codes "Upgrade"
    ∷ header_upstream_url
    ∷ header_sealed_secret
    ∷ header_auth_bearer
    ∷ []

abbrev pub auth_headers : List Str
auth_headers = codes "Authorization" ∷ codes "Proxy-Authorization" ∷ codes "Proxy-Authenticate" ∷ []

-- fmt.Sprintf of a format and the token: a parameter.
abbrev pub Sprintf : Type 0
Sprintf = Str → Str → Str

-- The processor's token with the format and the name that were resolved.
pub record Injection : Type 0 where
  pub token : Str
  pub format : Str
  pub header_name : Str

pub record OutRequest : Type 0 where
  pub url : Url
  pub host : Str
  pub header : Header

unfoldable pub target_of : ⦃u : Unicode⦄ → Url → Url
target_of upstream = record upstream {
  scheme = codes "https";
  host = to_lower (strip_port upstream.host);
  user = none;
}

unfoldable pub strip_headers : Server → Header → Header
strip_headers s h =
    let no_hops = del_all hop_by_hop_headers h in
    let no_edge =
      if s.trust_cloudflare_headers then del_all cloudflare_trust_headers no_hops else no_hops in
    let filtered = del_all s.filtered_headers no_edge in
    if s.disable_x_forwarded_for then put x_forwarded_for (some []) filtered else filtered

unfoldable pub inject : Sprintf → Option Injection → Header → Header
inject sprintf none h = h
inject sprintf (some i) h = set i.header_name (sprintf i.format i.token) (del_all auth_headers h)

unfoldable pub director : Sprintf → Server → Url → Option Injection → Header → OutRequest
director sprintf s target i h = record {
  url = target;
  host = target.host;
  header = inject sprintf i (strip_headers s h);
}
