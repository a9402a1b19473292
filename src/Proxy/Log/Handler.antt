-- ===== src/Proxy/Log/Handler.antt =====
-- The handler that logs does what the handler does.
use secretproxy.Prelude.{
  ◌≡◌, refl, Bool, true, false, Option, ◌++◌, length, ltb, if◌then◌else◌, Result, ok, err,
  refuse_if, wrap, ◌>>=◌, ◌∙◌, [],
}
use secretproxy.Text.{Str, Unicode}
use secretproxy.Http.{get, values}
use secretproxy.Seal.{Secret}
use secretproxy.Proxy.Policy.{
  reject_non_standard_port, validate_host, validate_path, validate_method,
}
use secretproxy.Proxy.Override.{
  resolve_processor, Override, HeaderError, missing_secret, override_json, parse_sealed_header,
}
use secretproxy.Proxy.Server.{Server, Url, header_sealed_secret}
use secretproxy.Proxy.Forward.{
  World, Request, Rejection, handle_forward, by_seal, proxy_sealed, passthrough, check_size,
  check_client, upstream_of, multiple_sealed_secrets, seal_open_failed, fallback_keys, authorize,
  override_rejected, not_permitted, forward_to, injection, proxied,
}
use secretproxy.Seal.Envelope.{open_seal}
use secretproxy.Proxy.Log.{
  Fields, Texts, Logged, gate, noted, seal_fields, passthrough_logged, admit_logged,
  proxy_sealed_logged, by_seal_logged, request_fields, handle_forward_logged,
}

gate-result {ℓ κ} :
    {A : Type ℓ} {B : Type κ} (t : Texts) (r : Request) (fields : Fields) (m : Result Rejection A)
    (next : A → Logged B) (k : A → Result Rejection B)
    → ((a : A) → (next a).result ≡ k a)
    → (gate t r fields m next).result ≡ (m >>= k)
gate-result t r fields (ok a) next k h = h a
gate-result t r fields (err e) next k h = refl

noted-result {ℓ} :
    {A : Type ℓ} (used : Bool) (fields : Fields) (rest : Logged A)
    → (noted used fields rest).result ≡ rest.result
noted-result true fields rest = refl
noted-result false fields rest = refl

either-result {ℓ} :
    {A : Type ℓ} (b : Bool) (x y : Logged A) (k l : Result Rejection A)
    → x.result ≡ k
    → y.result ≡ l
    → (if b then x else y).result ≡ (if b then k else l)
either-result true x y k l h h' = h
either-result false x y k l h h' = h'

module _ ⦃u : Unicode⦄ (t : Texts) (w : World) (s : Server) (r : Request) where
  passthrough-result :
      (fields : Fields) (upstream : Url)
      → (passthrough_logged t w s r fields upstream).result ≡ passthrough w s r upstream
  unfolding passthrough_logged passthrough
  passthrough-result fields upstream =
      gate-result t r fields (wrap not_permitted (reject_non_standard_port upstream.host)) _ _
        (λ _. refl)

  admit-result :
      (fields : Fields) (upstream : Url) (secret : Secret) (override : Option Override)
      → (admit_logged t w s r fields upstream secret override).result ≡ (
          authorize w s r secret.bearer_auth secret.no_auth >>= λ _.
          wrap override_rejected (resolve_processor secret.inject_header override)
          >>= λ (format, header_name).
              wrap not_permitted (reject_non_standard_port upstream.host) >>= λ _.
              wrap not_permitted (validate_host w.lib.engine upstream.host secret) >>= λ _.
              wrap not_permitted (validate_path w.lib.engine upstream.path secret) >>= λ _.
              wrap not_permitted (validate_method r.method secret) >>= λ _. ok (
                forward_to w s r proxied upstream
                  (injection secret.inject_header format header_name)))
  unfolding admit_logged
  admit-result fields upstream secret override =
      gate-result t r fields (authorize w s r secret.bearer_auth secret.no_auth) _ _ λ _.
        gate-result t r fields
          (wrap override_rejected (resolve_processor secret.inject_header override)) _ _
          λ (format, header_name).
            gate-result t r fields (wrap not_permitted (reject_non_standard_port upstream.host)) _ _
              λ _.
                gate-result t r fields
                  (wrap not_permitted (validate_host w.lib.engine upstream.host secret)) _ _
                  λ _.
                    gate-result t r fields
                      (wrap not_permitted (validate_path w.lib.engine upstream.path secret)) _ _
                      λ _.
                        gate-result t r fields
                          (wrap not_permitted (validate_method r.method secret)) _ _ λ _. refl

  proxy_sealed-result :
      (fields : Fields) (upstream : Url) (blob : Str) (override : Option Override)
      → (proxy_sealed_logged t w s r fields upstream blob override).result
        ≡ proxy_sealed w s r upstream blob override
  unfolding proxy_sealed_logged proxy_sealed
  proxy_sealed-result fields upstream blob override =
      let opening = open_seal w.lib blob s.private_key (fallback_keys s.previous_private_key) in
      gate-result t r fields (wrap seal_open_failed opening) _ _ λ (secret, used).
        noted-result used (fields ++ seal_fields secret)
          (admit_logged t w s r (fields ++ seal_fields secret) upstream secret override)
        ∙ admit-result (fields ++ seal_fields secret) upstream secret override

  by_seal-result :
      (fields : Fields) (upstream : Url) (p : Result HeaderError (Str × Option Override))
      → (by_seal_logged t w s r fields upstream p).result ≡ by_seal w s r upstream p
  by_seal-result fields upstream (ok (blob, override)) =
      proxy_sealed-result fields upstream blob override
  by_seal-result fields upstream (err missing_secret) =
      either-result s.allow_passthrough _ _ _ _ (passthrough-result fields upstream) refl
  by_seal-result fields upstream (err override_json) = refl

  -- The handler with its log lines returns what the handler without them returns, for every request.
  handle_forward_logged-result : (handle_forward_logged t w s r).result ≡ handle_forward w s r
  unfolding handle_forward_logged handle_forward
  handle_forward_logged-result = gate-result t r [] (check_size s r) _ _ λ _.
      gate-result t r [] (check_client w s r) _ _ λ _.
        gate-result t r [] (upstream_of w r) _ _ λ upstream.
          let many = ltb 1 (length (values r.header header_sealed_secret)) in
          let parsed = parse_sealed_header w.decode_override (get r.header header_sealed_secret) in
          gate-result t r (request_fields t r upstream) (refuse_if many multiple_sealed_secrets) _ _
            λ _. by_seal-result (request_fields t r upstream) upstream parsed
