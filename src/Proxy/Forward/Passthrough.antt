-- ===== src/Proxy/Forward/Passthrough.antt =====
-- When a request without a seal is forwarded.
use secretproxy.Prelude.{
  wrap-eq-ok, ◌≡◌, refl, ◌≢◌, inl, inr, true, Option, none, some, arith, ltb, Bool-cases, length,
  is_empty, Result, ok, err, refuse_if, wrap, >>=-eq-ok, Ensures, Ensures->>=, Ensures-ok,
}
use secretproxy.Text.{Str, Unicode}
use secretproxy.Http.{get, values}
use secretproxy.Proxy.Policy.{
  reject_non_standard_port, validate_host, validate_path, validate_method,
}
use secretproxy.Proxy.Policy.Ports.{IsPort443, reject_non_standard_port_iff}
use secretproxy.Proxy.Override.{
  Override, HeaderError, missing_secret, override_json, parse_sealed_header, resolve_processor,
}
use secretproxy.Proxy.Server.{Server, Url, header_sealed_secret, header_upstream_url}
use secretproxy.Proxy.Director.{Injection, OutRequest, target_of, director}
use secretproxy.Proxy.Forward.{
  World, Request, Forwarded, proxied, passed_through, check_size, check_client, upstream_of,
  by_seal, proxy_sealed, passthrough, handle_forward, forward_to, not_permitted,
  multiple_sealed_secrets, injection, seal_open_failed, override_rejected, fallback_keys, authorize,
}
use secretproxy.Seal.Envelope.{open_seal}
use secretproxy.Proxy.Forward.Gates.{
  IsWithin, check_size_iff, upstream_of_iff, IsAdmitted, check_client_iff,
}

module _ ⦃u : Unicode⦄ (w : World) (s : Server) (r : Request) where
  pub record IsPassedThrough (out : OutRequest) : Type 0 where
    pub within : IsWithin s.max_request_bytes r.content_length
    pub admitted : IsAdmitted w s r
    pub upstream : Url
    pub parsed : w.parse_url (get r.header header_upstream_url) ≡ some upstream
    pub allowed : s.allow_passthrough ≡ true
    pub no_seal :
        parse_sealed_header w.decode_override (get r.header header_sealed_secret)
        ≡ err missing_secret
    pub port : IsPort443 upstream.host
    pub sent : out ≡ director w.sprintf s (target_of upstream) none r.header

  forward_to-passed :
      (upstream : Url) (out : OutRequest)
      → forward_to w s r passed_through upstream none ≡ passed_through out
      → out ≡ director w.sprintf s (target_of upstream) none r.header
  unfolding forward_to
  forward_to-passed upstream out h = elim (Bool-cases (is_empty (target_of upstream).host)) [
    | inl empty ↦ absurd (ground arith)
    | inr full ↦ ground arith
  ]

  passthrough-sent :
      (upstream : Url) (out : OutRequest)
      → passthrough w s r upstream ≡ ok (passed_through out)
      → IsPort443 upstream.host × (out ≡ director w.sprintf s (target_of upstream) none r.header)
  unfolding passthrough
  passthrough-sent upstream out h =
      let port = reject_non_standard_port upstream.host in
      let (_, e, h') = >>=-eq-ok (wrap not_permitted port) _ h in
      (
        ((reject_non_standard_port_iff upstream.host).0 (wrap-eq-ok not_permitted port e)).1,
        forward_to-passed upstream out (cc h'),
      )

  abbrev IsNotPassed : Forwarded → Type 0
  IsNotPassed f = (out : OutRequest) → f ≢ passed_through out

  forward_to-IsNotPassed :
      (upstream : Url) (i : Option Injection) → IsNotPassed (forward_to w s r proxied upstream i)
  unfolding forward_to
  forward_to-IsNotPassed upstream i out h = ground arith

  proxy_sealed-IsNotPassed :
      (upstream : Url) (blob : Str) (override : Option Override)
      → Ensures IsNotPassed (proxy_sealed w s r upstream blob override)
  unfolding proxy_sealed
  proxy_sealed-IsNotPassed upstream blob override =
      let opening = open_seal w.lib blob s.private_key (fallback_keys s.previous_private_key) in
      Ensures->>= IsNotPassed (wrap seal_open_failed opening) _ λ (secret, used).
        Ensures->>= IsNotPassed (authorize w s r secret.bearer_auth secret.no_auth) _ λ _.
          let resolving = resolve_processor secret.inject_header override in
          Ensures->>= IsNotPassed (wrap override_rejected resolving) _ λ (format, header_name).
            let port = reject_non_standard_port upstream.host in
            let host = validate_host w.lib.engine upstream.host secret in
            let path = validate_path w.lib.engine upstream.path secret in
            let method = validate_method r.method secret in
            Ensures->>= IsNotPassed (wrap not_permitted port) _ λ _.
              Ensures->>= IsNotPassed (wrap not_permitted host) _ λ _.
                Ensures->>= IsNotPassed (wrap not_permitted path) _ λ _.
                  Ensures->>= IsNotPassed (wrap not_permitted method) _ λ _.
                    forward_to-IsNotPassed upstream
                      (injection secret.inject_header format header_name)

  by_seal-passed :
      (upstream : Url) (p : Result HeaderError (Str × Option Override)) (out : OutRequest)
      → by_seal w s r upstream p ≡ ok (passed_through out)
      → (p ≡ err missing_secret)
        × (s.allow_passthrough ≡ true)
        × (passthrough w s r upstream ≡ ok (passed_through out))
  by_seal-passed upstream (ok (blob, override)) out h = absurd (
      Ensures-ok IsNotPassed (proxy_sealed w s r upstream blob override)
        (proxy_sealed-IsNotPassed upstream blob override) h out refl)
  by_seal-passed upstream (err missing_secret) out h = elim (Bool-cases s.allow_passthrough) [
    | inl on ↦ (refl, on, ground arith)
    | inr off ↦ absurd (ground arith)
  ]
  by_seal-passed upstream (err override_json) out h = cc

  -- A request is passed through only if the server allows it and the request has no sealed secret; it
  -- has gone through the gates of length and of client address, goes to a URL that names
  -- port 443 or none, and carries no credential.
  pub handle_forward-IsPassedThrough :
      (out : OutRequest) → handle_forward w s r ≡ ok (passed_through out) → IsPassedThrough out
  unfolding handle_forward
  handle_forward-IsPassedThrough out h =
      let (_, e0, h0) = >>=-eq-ok (check_size s r) _ h in
      let (_, e1, h1) = >>=-eq-ok (check_client w s r) _ h0 in
      let (upstream, e2, h2) = >>=-eq-ok (upstream_of w r) _ h1 in
      let many = ltb 1 (length (values r.header header_sealed_secret)) in
      let (_, e3, h3) = >>=-eq-ok (refuse_if many multiple_sealed_secrets) _ h2 in
      let parse = parse_sealed_header w.decode_override (get r.header header_sealed_secret) in
      let (no_seal, allowed, passed) = by_seal-passed upstream parse out h3 in
      let (port, sent) = passthrough-sent upstream out passed in
      record {
        within = (check_size_iff s r).0 e0;
        admitted = (check_client_iff w s r).0 e1;
        upstream = upstream;
        parsed = ((upstream_of_iff w r upstream).0 e2).1;
        allowed = allowed;
        no_seal = no_seal;
        port = port;
        sent = sent;
      }
