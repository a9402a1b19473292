-- ===== src/Proxy/Forward.antt =====
-- proxy.go: handleForward with passthrough and the first part of forwardTo, up to the reverse proxy.
pub mod Gates
pub mod Proxied
pub mod Passthrough
pub mod Safety
use secretproxy.Prelude.{
  ℕ, zero, suc, ◌+◌, ◌-◌, ◌*◌, ◌/◌, ◌%◌, ◌^◌, ◌≤◌, ◌<◌, code, String, ◌≡◌, refl, sym, ap, ◌∙◌,
  ◌≡⟨◌⟩◌, ◌∎, ◌≢◌, ◌↔◌, ◌⊎◌, inl, inr, Bool, true, false, not, ◌&&◌, ◌||◌, Option, none, some, List,
  [], ◌∷◌, ◌++◌, append-nil, append_assoc, arith, ltb, leb, ◌==◌, if◌then◌else◌, ==_iff, Bool-cases,
  Option-cases, &&-eq-true, length, get_elem?, is_empty, length-append, any, all, last_or, All, Any,
  All-append, last_or-append, Result, ok, err, Check, ◌>>=◌, ◌>>◌, refuse_if, wrap, >>=-eq-ok,
  Result-cases,
}
use secretproxy.Text.{Str, codes, Unicode}
use secretproxy.Net.Addr.{Addr, Parsers}
use secretproxy.Http.{Header, get, values}
use secretproxy.Seal.{Secret, BearerAuth, NoAuth, InjectHeader, PrivateKey}
use secretproxy.Seal.Envelope.{Lib, OpenError, open_seal, verify_bearer}
use secretproxy.Proxy.Policy.{
  PolicyError, reject_non_standard_port, validate_host, validate_path, validate_method,
}
use secretproxy.Proxy.Override.{
  Override, OverrideDecoder, HeaderError, missing_secret, parse_sealed_header, extract_bearer,
  ResolveError, resolve_processor,
}
use secretproxy.Proxy.Ingress.{IngressError, client_ip_from_request, ip_in_prefixes}
use secretproxy.Proxy.Server.{
  Server, Url, header_upstream_url, header_sealed_secret, header_auth_bearer,
}
use secretproxy.Proxy.Director.{Sprintf, Injection, OutRequest, target_of, director}

-- The code that the handler calls and this library does not model.
pub record World : Type 0 where
  pub lib : Lib
  pub parsers : Parsers
  pub parse_url : Str → Option Url
  pub decode_override : OverrideDecoder
  pub sprintf : Sprintf

-- An unknown content length, -1 in Go, is `none`.
pub record Request : Type 0 where
  pub method : Str
  pub content_length : Option ℕ
  pub remote_addr : Str
  pub header : Header

-- Each call of respondError, with its cause.
pub data Rejection : Type 0 where
  body_too_large : Rejection
  client_ip_error : IngressError → Rejection
  client_ip_not_allowed : Addr → Rejection
  missing_upstream_url bad_upstream_url multiple_sealed_secrets : Rejection
  invalid_sealed_secret : HeaderError → Rejection
  seal_open_failed : OpenError → Rejection
  bearer_mismatch no_auth_refused : Rejection
  override_rejected : ResolveError → Rejection
  not_permitted : PolicyError → Rejection

unfoldable pub status : Rejection → ℕ
status body_too_large = 413
status (client_ip_error e) = 403
status (client_ip_not_allowed a) = 403
status missing_upstream_url = 400
status bad_upstream_url = 400
status multiple_sealed_secrets = 400
status (invalid_sealed_secret e) = 400
status (seal_open_failed e) = 401
status bearer_mismatch = 401
status no_auth_refused = 401
status (override_rejected e) = 400
status (not_permitted e) = 403

-- What the handler hands to the reverse proxy, by way of which path; or the answer 400 of forwardTo.
pub data Forwarded : Type 0 where
  proxied passed_through : OutRequest → Forwarded
  missing_target_host : Forwarded

abbrev pub too_large : ℕ → Option ℕ → Bool
too_large limit none = false
too_large limit (some n) = ltb 0 limit && ltb limit n

unfoldable pub check_size : Server → Request → Check Rejection
check_size s r = refuse_if (too_large s.max_request_bytes r.content_length) body_too_large

abbrev parsed_upstream : Option Url → Result Rejection Url
parsed_upstream none = err bad_upstream_url
parsed_upstream (some u) = if is_empty u.host then err bad_upstream_url else ok u

unfoldable pub upstream_of : World → Request → Result Rejection Url
upstream_of w r =
    if is_empty (get r.header header_upstream_url)
    then err missing_upstream_url
    else parsed_upstream (w.parse_url (get r.header header_upstream_url))

abbrev pub fallback_keys : Option PrivateKey → List PrivateKey
fallback_keys none = []
fallback_keys (some k) = k ∷ []

abbrev pub injection : Option InjectHeader → Str → Str → Option Injection
injection none format header_name = none
injection (some ih) format header_name =
    some (record { token = ih.token; format = format; header_name = header_name })

module _ ⦃u : Unicode⦄ (w : World) (s : Server) (r : Request) where
  unfoldable pub check_client : Check Rejection
  check_client =
      if is_empty s.allowed_client_cidrs
      then ok tt
      else wrap client_ip_error (
          client_ip_from_request w.parsers r.header r.remote_addr s.trust_tls_terminator
            s.trust_cloudflare_headers)
        >>= λ ip.
            refuse_if (not (ip_in_prefixes ip s.allowed_client_cidrs)) (client_ip_not_allowed ip)

  -- The switch on the seal's way of authorising; a valid seal has exactly one.
  unfoldable pub authorize : Option BearerAuth → Option NoAuth → Check Rejection
  authorize (some b) no_auth = elim (extract_bearer (get r.header header_auth_bearer)) [
    | none ↦ err bearer_mismatch
    | some bearer ↦ refuse_if (not (verify_bearer w.lib.crypto b bearer)) bearer_mismatch
  ]
  authorize none (some n) = refuse_if (not s.allow_no_auth) no_auth_refused
  authorize none none = ok tt

  -- forwardTo, up to the reverse proxy.
  unfoldable pub forward_to : (OutRequest → Forwarded) → Url → Option Injection → Forwarded
  forward_to way upstream i =
      if is_empty (target_of upstream).host
      then missing_target_host
      else way (director w.sprintf s (target_of upstream) i r.header)

  unfoldable pub passthrough : Url → Result Rejection Forwarded
  passthrough upstream = do
    wrap not_permitted (reject_non_standard_port upstream.host)
    ok (forward_to passed_through upstream none)

  -- handleForward from the opening of the seal on.
  unfoldable pub proxy_sealed : Url → Str → Option Override → Result Rejection Forwarded
  proxy_sealed upstream blob override = do
    (secret, used_fallback) ←
        wrap seal_open_failed
          (open_seal w.lib blob s.private_key (fallback_keys s.previous_private_key))
    authorize secret.bearer_auth secret.no_auth
    (format, header_name) ← wrap override_rejected (resolve_processor secret.inject_header override)
    wrap not_permitted (reject_non_standard_port upstream.host)
    wrap not_permitted (validate_host w.lib.engine upstream.host secret)
    wrap not_permitted (validate_path w.lib.engine upstream.path secret)
    wrap not_permitted (validate_method r.method secret)
    ok (forward_to proxied upstream (injection secret.inject_header format header_name))

  -- The header of the seal decides between the two ways.
  abbrev pub by_seal : Url → Result HeaderError (Str × Option Override) → Result Rejection Forwarded
  by_seal upstream (ok (blob, override)) = proxy_sealed upstream blob override
  by_seal upstream (err missing_secret) =
      if s.allow_passthrough
      then passthrough upstream
      else err (invalid_sealed_secret missing_secret)
  by_seal upstream (err e) = err (invalid_sealed_secret e)

  unfoldable pub handle_forward : Result Rejection Forwarded
  handle_forward = do
    check_size s r
    check_client
    upstream ← upstream_of w r
    refuse_if (ltb 1 (length (values r.header header_sealed_secret))) multiple_sealed_secrets
    by_seal upstream (parse_sealed_header w.decode_override (get r.header header_sealed_secret))
