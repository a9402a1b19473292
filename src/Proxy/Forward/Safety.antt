-- ===== src/Proxy/Forward/Safety.antt =====
-- Where a credential may go, and in what form.
use secretproxy.Prelude.{
  ℕ, ◌≤◌, ◌≡◌, refl, ap, ◌∙◌, ◌⊎◌, Bool, Option, none, some, [], ◌∷◌, Any, ok,
}
use secretproxy.Text.{Str, codes, Unicode, to_lower}
use secretproxy.Http.{get, canonical}
use secretproxy.Seal.{Secret, InjectHeader}
use secretproxy.Seal.Validate.Scan.{IsHeaderSafe}
use secretproxy.Seal.Validate.Rules.{IsValid, HasProcessor}
use secretproxy.Seal.Envelope.Opening.{IsOpened, open_seal-IsOpened}
use secretproxy.Proxy.Dots.{max_decodes}
use secretproxy.Proxy.Dots.Meaning.{IsClean}
use secretproxy.Proxy.Policy.{strip_port}
use secretproxy.Proxy.Policy.Ports.{IsPort443, reject_non_standard_port_iff}
use secretproxy.Proxy.Policy.Hosts.{IsAllowedHost, validate_host_iff}
use secretproxy.Proxy.Policy.Paths.{IsAllowedPath, validate_path_iff, validate_method_iff}
use secretproxy.Proxy.Override.{Override, resolve_processor}
use secretproxy.Proxy.Override.Resolve.{resolved-IsHeaderSafe}
use secretproxy.Proxy.Server.{Server, Url, header_upstream_url}
use secretproxy.Proxy.Director.{OutRequest, Injection, target_of, director}
use secretproxy.Proxy.Director.Headers.{director_headers}
use secretproxy.Proxy.Forward.{World, Request, handle_forward, proxied, injection, fallback_keys}
use secretproxy.Proxy.Forward.Gates.{IsAuthorized}
use secretproxy.Proxy.Forward.Proxied.{IsUnsealed, handle_forward_iff}

module _ ⦃u : Unicode⦄ (w : World) (s : Server) (r : Request) where
  -- The seal behind a request that was sent.
  pub record IsBehind (secret : Secret) : Type 0 where
    pub blob : Str
    pub used_fallback : Bool
    pub opened :
        IsOpened w.lib blob s.private_key
          (fallback_keys s.previous_private_key)
          secret
          used_fallback
    pub authorized : IsAuthorized w s r secret.bearer_auth secret.no_auth

  -- The request goes by https to the host and path of the URL that the client named, which names port
  -- 443 or none, and the seal allows these and the method.
  pub record IsConfined (out : OutRequest) (secret : Secret) : Type 0 where
    pub upstream : Url
    pub parsed : w.parse_url (get r.header header_upstream_url) ≡ some upstream
    pub scheme : out.url.scheme ≡ codes "https"
    pub user : out.url.user ≡ none
    pub url_host : out.url.host ≡ to_lower (strip_port upstream.host)
    pub host : out.host ≡ to_lower (strip_port upstream.host)
    pub path : out.url.path ≡ upstream.path
    pub port : IsPort443 upstream.host
    pub allowed_host : IsAllowedHost w.lib.engine secret upstream.host
    pub clean_path : (k : ℕ) × (k ≤ max_decodes) × IsClean k upstream.path
    pub allowed_path : IsAllowedPath w.lib.engine secret upstream.path
    pub allowed_method :
        (secret.allowed_methods ≡ []) ⊎ Any (λ m. m ≡ r.method) secret.allowed_methods

  -- The credential is the one value of its header, and neither its format nor the header's name holds
  -- a control character.
  pub record IsInjected (out : OutRequest) (ih : InjectHeader) : Type 0 where
    pub format : Str
    pub header_name : Str
    pub safe_format : IsHeaderSafe format
    pub safe_name : IsHeaderSafe header_name
    pub carried : out.header (canonical header_name) ≡ some (w.sprintf format ih.token ∷ [])

  confined_target :
      (upstream : Url) (i : Option Injection) (out : OutRequest)
      → out ≡ director w.sprintf s (target_of upstream) i r.header
      → (out.url ≡ target_of upstream) × (out.host ≡ to_lower (strip_port upstream.host))
  unfolding director target_of
  confined_target upstream i out e = (ap (λ o. o.url) e, ap (λ o. o.host) e)

  unsealed-IsConfined :
      (upstream : Url) (blob : Str) (override : Option Override) (out : OutRequest)
      (c : IsUnsealed w s r upstream blob override out)
      → w.parse_url (get r.header header_upstream_url) ≡ some upstream
      → IsConfined out c.secret
  unfolding target_of
  unsealed-IsConfined upstream blob override out c parsed =
      let i = injection c.secret.inject_header c.format c.header_name in
      let (url, host) = confined_target upstream i out c.sent in
      let (clean, allowed_path) =
        (validate_path_iff w.lib.engine upstream.path c.secret).0 c.path in
      record {
        upstream = upstream;
        parsed = parsed;
        scheme = ap (λ v. v.scheme) url;
        user = ap (λ v. v.user) url;
        url_host = ap (λ v. v.host) url;
        host = host;
        path = ap (λ v. v.path) url;
        port = ((reject_non_standard_port_iff upstream.host).0 c.port).1;
        allowed_host = (validate_host_iff w.lib.engine upstream.host c.secret).0 c.host;
        clean_path = clean;
        allowed_path = allowed_path;
        allowed_method = (validate_method_iff r.method c.secret).0 c.method;
      }

  injected :
      (upstream : Url) (p : Option InjectHeader) (override : Option Override)
      (format header_name : Str) (out : OutRequest)
      → HasProcessor p
      → resolve_processor p override ≡ ok (format, header_name)
      → out ≡ director w.sprintf s (target_of upstream) (injection p format header_name) r.header
      → (ih : InjectHeader) × (p ≡ some ih) × IsInjected out ih
  injected upstream none override format header_name out h resolved sent = absurd h
  injected upstream (some ih) override format header_name out h resolved sent =
      let (f, n) = resolved-IsHeaderSafe ih override format header_name h resolved in
      let i : Injection = record { token = ih.token; format = format; header_name = header_name } in
      (
        ih,
        refl,
        record {
          format = format;
          header_name = header_name;
          safe_format = f;
          safe_name = n;
          carried =
              ap (λ o. o.header (canonical header_name)) sent
              ∙ (director_headers w.sprintf s (target_of upstream) i r.header).0;
        },
      )

  -- If the handler sends a request with a credential, there is a valid seal behind it that a key of
  -- the server opens and for which the request is authorised; the request goes by https, without
  -- user information, to the host and the decoded path of the URL that the client named, which names
  -- port 443 or none, and the seal admits host, path and method; and the token of the seal is the one value of a header
  -- whose name and format hold no control character.
  pub handle_forward-IsConfined :
      (out : OutRequest)
      → handle_forward w s r ≡ ok (proxied out)
      → (secret : Secret) × IsBehind secret
        × IsValid w.lib.engine secret
        × IsConfined out secret
        × ((ih : InjectHeader) × (secret.inject_header ≡ some ih) × IsInjected out ih)
  handle_forward-IsConfined out h =
      let p = (handle_forward_iff w s r out).0 h in
      let c = p.unsealed in
      let opened =
        open_seal-IsOpened w.lib p.blob s.private_key (fallback_keys s.previous_private_key)
          c.secret c.used_fallback c.opened in
      let behind : IsBehind c.secret = record {
        blob = p.blob;
        used_fallback = c.used_fallback;
        opened = opened;
        authorized = c.authorized;
      } in
      (
        c.secret,
        behind,
        opened.valid,
        unsealed-IsConfined p.upstream p.blob p.override out c p.parsed,
        injected p.upstream c.secret.inject_header p.override c.format c.header_name out
            opened.valid.processor c.resolved c.sent,
      )
