-- ===== src/Proxy/Forward/Proxied.antt =====
-- Every check that stands before a request which carries the credential.
use secretproxy.Prelude.{
  wrap-eq-ok, refuse_if-eq-ok, ◌≤◌, ◌≡◌, refl, sym, ap, ◌≢◌, ◌↔◌, inl, inr, Bool, false, Option,
  some, List, [], arith, ltb, Bool-cases, length, is_empty, Result, ok, err, refuse_if, wrap,
  >>=-eq-ok,
}
use secretproxy.Text.{Str, Unicode}
use secretproxy.Http.{get, values}
use secretproxy.Seal.{Secret}
use secretproxy.Seal.Envelope.{open_seal}
use secretproxy.Proxy.Policy.{
  reject_non_standard_port, validate_host, validate_path, validate_method,
}
use secretproxy.Proxy.Override.{
  Override, HeaderError, missing_secret, override_json, parse_sealed_header, resolve_processor,
}
use secretproxy.Proxy.Server.{Server, Url, header_sealed_secret, header_upstream_url}
use secretproxy.Proxy.Director.{Injection, OutRequest, target_of, director}
use secretproxy.Proxy.Forward.{
  World, Request, Rejection, Forwarded, proxied, check_size, check_client, upstream_of, authorize,
  by_seal, proxy_sealed, passthrough, handle_forward, forward_to, injection, fallback_keys,
  seal_open_failed, override_rejected, not_permitted, multiple_sealed_secrets,
}
use secretproxy.Proxy.Forward.Gates.{
  IsWithin, check_size_iff, upstream_of_iff, IsAdmitted, check_client_iff, IsAuthorized,
  authorize_iff,
}

not_many : (vs : List Str) → length vs ≤ 1 → ltb 1 (length vs) ≡ false
not_many vs h = ground arith

module _ ⦃u : Unicode⦄ (w : World) (s : Server) (r : Request) where
  -- The checks from the opening of the seal on.
  pub record IsUnsealed (upstream : Url) (blob : Str) (override : Option Override)
      (out : OutRequest) : Type 0 where
    pub secret : Secret
    pub used_fallback : Bool
    pub opened :
        open_seal w.lib blob s.private_key (fallback_keys s.previous_private_key)
        ≡ ok (secret, used_fallback)
    pub authorized : IsAuthorized w s r secret.bearer_auth secret.no_auth
    pub format : Str
    pub header_name : Str
    pub resolved : resolve_processor secret.inject_header override ≡ ok (format, header_name)
    pub port : reject_non_standard_port upstream.host ≡ ok tt
    pub host : validate_host w.lib.engine upstream.host secret ≡ ok tt
    pub path : validate_path w.lib.engine upstream.path secret ≡ ok tt
    pub method : validate_method r.method secret ≡ ok tt
    pub has_target : (target_of upstream).host ≢ []
    pub sent :
        out
        ≡ director w.sprintf s
            (target_of upstream)
            (injection secret.inject_header format header_name)
            r.header

  forward_to-proxied :
      (upstream : Url) (i : Option Injection) (out : OutRequest)
      → forward_to w s r proxied upstream i ≡ proxied out
      → ((target_of upstream).host ≢ [])
        × (out ≡ director w.sprintf s (target_of upstream) i r.header)
  unfolding forward_to
  forward_to-proxied upstream i out h = elim (Bool-cases (is_empty (target_of upstream).host)) [
    | inl empty ↦ absurd (ground arith)
    | inr full ↦ (ground arith, ground arith)
  ]

  proxied-forward_to :
      (upstream : Url) (i : Option Injection) (out : OutRequest)
      → (target_of upstream).host ≢ []
      → out ≡ director w.sprintf s (target_of upstream) i r.header
      → forward_to w s r proxied upstream i ≡ proxied out
  unfolding forward_to
  proxied-forward_to upstream i out n e = elim (Bool-cases (is_empty (target_of upstream).host)) [
    | inl empty ↦ absurd (ground arith)
    | inr full ↦ rw full (ap proxied (sym e))
  ]

  proxy_sealed-IsUnsealed :
      (upstream : Url) (blob : Str) (override : Option Override) (out : OutRequest)
      → proxy_sealed w s r upstream blob override ≡ ok (proxied out)
      → IsUnsealed upstream blob override out
  unfolding proxy_sealed
  proxy_sealed-IsUnsealed upstream blob override out h =
      let keys = fallback_keys s.previous_private_key in
      let opening = open_seal w.lib blob s.private_key keys in
      let ((secret, used), e0, h0) = >>=-eq-ok (wrap seal_open_failed opening) _ h in
      let opened = wrap-eq-ok seal_open_failed opening e0 in
      let auth = authorize w s r secret.bearer_auth secret.no_auth in
      let (_, e1, h1) = >>=-eq-ok auth _ h0 in
      let resolving = resolve_processor secret.inject_header override in
      let ((format, header_name), e2, h2) = >>=-eq-ok (wrap override_rejected resolving) _ h1 in
      let port = reject_non_standard_port upstream.host in
      let (_, e3, h3) = >>=-eq-ok (wrap not_permitted port) _ h2 in
      let host = validate_host w.lib.engine upstream.host secret in
      let (_, e4, h4) = >>=-eq-ok (wrap not_permitted host) _ h3 in
      let path = validate_path w.lib.engine upstream.path secret in
      let (_, e5, h5) = >>=-eq-ok (wrap not_permitted path) _ h4 in
      let method = validate_method r.method secret in
      let (_, e6, h6) = >>=-eq-ok (wrap not_permitted method) _ h5 in
      let i = injection secret.inject_header format header_name in
      let (has_target, sent) = forward_to-proxied upstream i out (cc h6) in
      record {
        secret = secret;
        used_fallback = used;
        opened = opened;
        authorized = (authorize_iff w s r secret.bearer_auth secret.no_auth).0 e1;
        format = format;
        header_name = header_name;
        resolved = wrap-eq-ok override_rejected resolving e2;
        port = wrap-eq-ok not_permitted port e3;
        host = wrap-eq-ok not_permitted host e4;
        path = wrap-eq-ok not_permitted path e5;
        method = wrap-eq-ok not_permitted method e6;
        has_target = has_target;
        sent = sent;
      }

  IsUnsealed-proxy_sealed :
      (upstream : Url) (blob : Str) (override : Option Override) (out : OutRequest)
      → IsUnsealed upstream blob override out
      → proxy_sealed w s r upstream blob override ≡ ok (proxied out)
  unfolding proxy_sealed
  IsUnsealed-proxy_sealed upstream blob override out c =
      let auth = (authorize_iff w s r c.secret.bearer_auth c.secret.no_auth).1 c.authorized in
      let i = injection c.secret.inject_header c.format c.header_name in
      rw (c.opened, auth, c.resolved, c.port, c.host, c.path, c.method)
        (ap (λ f. let x : Result Rejection Forwarded = ok f in x)
          (proxied-forward_to upstream i out c.has_target c.sent))

  -- The whole way: every gate in front of the seal, the seal's header, and the checks behind it.
  pub record IsProxied (out : OutRequest) : Type 0 where
    pub within : IsWithin s.max_request_bytes r.content_length
    pub admitted : IsAdmitted w s r
    pub upstream : Url
    pub given : get r.header header_upstream_url ≢ []
    pub parsed : w.parse_url (get r.header header_upstream_url) ≡ some upstream
    pub has_host : upstream.host ≢ []
    pub one_seal : length (values r.header header_sealed_secret) ≤ 1
    pub blob : Str
    pub override : Option Override
    pub seal_header :
        parse_sealed_header w.decode_override (get r.header header_sealed_secret)
        ≡ ok (blob, override)
    pub unsealed : IsUnsealed upstream blob override out

  passthrough-ne-proxied :
      (upstream : Url) (out : OutRequest) → passthrough w s r upstream ≢ ok (proxied out)
  unfolding passthrough forward_to
  passthrough-ne-proxied upstream out h = absurd (ground arith)

  by_seal-proxied :
      (upstream : Url) (p : Result HeaderError (Str × Option Override)) (out : OutRequest)
      → by_seal w s r upstream p ≡ ok (proxied out)
      → (blob : Str) × (override : Option Override) × (p ≡ ok (blob, override))
        × (proxy_sealed w s r upstream blob override ≡ ok (proxied out))
  by_seal-proxied upstream (ok (blob, override)) out h = (blob, override, refl, h)
  by_seal-proxied upstream (err missing_secret) out h = elim (Bool-cases s.allow_passthrough) [
    | inl on ↦ absurd (passthrough-ne-proxied upstream out (ground arith))
    | inr off ↦ absurd (ground arith)
  ]
  by_seal-proxied upstream (err override_json) out h = cc

  -- The handler sends a request with the credential exactly if every check holds: the body's length,
  -- the client's address, an upstream URL with a host, no more than one line of the seal's header, a seal
  -- that opens, the client's authorisation, the override, the port, the seal's host, path and method,
  -- and a host to dial; and what it sends is what the director makes of the request.
  pub handle_forward_iff :
      (out : OutRequest) → (handle_forward w s r ≡ ok (proxied out)) ↔ IsProxied out
  unfolding handle_forward
  handle_forward_iff out = (
    λ h.
        let size = check_size s r in
        let (_, e0, h0) = >>=-eq-ok size _ h in
        let client = check_client w s r in
        let (_, e1, h1) = >>=-eq-ok client _ h0 in
        let (upstream, e2, h2) = >>=-eq-ok (upstream_of w r) _ h1 in
        let (given, parsed, has_host) = (upstream_of_iff w r upstream).0 e2 in
        let many = ltb 1 (length (values r.header header_sealed_secret)) in
        let (_, e3, h3) = >>=-eq-ok (refuse_if many multiple_sealed_secrets) _ h2 in
        let one = refuse_if-eq-ok many multiple_sealed_secrets e3 in
        let parse = parse_sealed_header w.decode_override (get r.header header_sealed_secret) in
        let (blob, override, seal_header, sent) = by_seal-proxied upstream parse out h3 in
        record {
          within = (check_size_iff s r).0 e0;
          admitted = (check_client_iff w s r).0 e1;
          upstream = upstream;
          given = given;
          parsed = parsed;
          has_host = has_host;
          one_seal = ground arith;
          blob = blob;
          override = override;
          seal_header = seal_header;
          unsealed = proxy_sealed-IsUnsealed upstream blob override out sent;
        },
    λ c.
        let few : ltb 1 (length (values r.header header_sealed_secret)) ≡ false =
          not_many (values r.header header_sealed_secret) c.one_seal in
        rw
          (
            (check_size_iff s r).1 c.within,
            (check_client_iff w s r).1 c.admitted,
            (upstream_of_iff w r c.upstream).1 (c.given, c.parsed, c.has_host),
            few,
            c.seal_header,
          )
          (IsUnsealed-proxy_sealed c.upstream c.blob c.override out c.unsealed),
  )
