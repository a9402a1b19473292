-- ===== src/Proxy/Log/Token.antt =====
-- No log line depends on the credential that is sealed.
use mathlib.Core.Path.{subst}
use secretproxy.Prelude.{
  ◌≡◌, refl, ap, Bool, true, false, Option, none, some, ◌∷◌, [], ◌++◌, length, ltb, if◌then◌else◌,
  Result, ok, err, refuse_if, wrap, Option-cases, inl, inr,
}
use secretproxy.Text.{Str, Unicode}
use secretproxy.Http.{get, values}
use secretproxy.Seal.{Secret, InjectHeader, auth_kind, processor_kind}
use secretproxy.Seal.Envelope.{Codec, OpenError, open_seal}
use secretproxy.Proxy.Policy.{
  reject_non_standard_port, validate_host, validate_path, validate_method,
}
use secretproxy.Proxy.Override.{
  Override, HeaderError, missing_secret, override_json, parse_sealed_header, resolve_processor,
}
use secretproxy.Proxy.Server.{Server, Url, header_sealed_secret}
use secretproxy.Proxy.Forward.{
  World, Request, Rejection, check_size, check_client, upstream_of, multiple_sealed_secrets,
  seal_open_failed, fallback_keys, authorize, override_rejected, not_permitted,
}
use secretproxy.Proxy.Log.{
  Fields, fallback_entry, Texts, Logged, gate, noted, seal_fields, log_value, passthrough_logged,
  admit_logged, proxy_sealed_logged, by_seal_logged, request_fields, handle_forward_logged,
}

abbrev other_token : (Str → Str) → Option InjectHeader → Option InjectHeader
other_token g none = none
other_token g (some ih) = some (record ih { token = g ih.token })

-- The secret with another token.
abbrev pub with_token : (Str → Str) → Secret → Secret
with_token g secret = record secret { inject_header = other_token g secret.inject_header }

abbrev pub relabel :
    (Str → Str) → Result OpenError (Secret × Bool) → Result OpenError (Secret × Bool)
relabel g (ok (secret, used)) = ok (with_token g secret, used)
relabel g (err e) = err e

-- The world whose codec is another one.
abbrev pub with_codec : World → Codec → World
with_codec w codec = record w { lib = record w.lib { codec = codec } }

abbrev SameLog {ℓ} : {A : Type ℓ} → Logged A → Logged A → Type 0
SameLog x y = (x.entries ≡ y.entries) × (x.last_fields ≡ y.last_fields)

gate-SameLog {ℓ κ} :
    {A : Type ℓ} {B : Type κ} (t : Texts) (r : Request) (fields : Fields) (m : Result Rejection A)
    (next next' : A → Logged B)
    → ((a : A) → SameLog (next a) (next' a))
    → SameLog (gate t r fields m next) (gate t r fields m next')
gate-SameLog t r fields (ok a) next next' h = h a
gate-SameLog t r fields (err e) next next' h = (refl, refl)

noted-SameLog {ℓ} :
    {A : Type ℓ} (used : Bool) (fields : Fields) (x y : Logged A)
    → SameLog x y
    → SameLog (noted used fields x) (noted used fields y)
noted-SameLog false fields x y h = h
noted-SameLog true fields x y (h, k) = (ap (λ es. fallback_entry fields ∷ es) h, k)

either-SameLog {ℓ} :
    {A : Type ℓ} (b : Bool) (x x' y y' : Logged A)
    → SameLog x x'
    → SameLog y y'
    → SameLog (if b then x else y) (if b then x' else y')
either-SameLog true x x' y y' h k = h
either-SameLog false x x' y y' h k = k

resolve_processor-other_token :
    (g : Str → Str) (p : Option InjectHeader) (override : Option Override)
    → resolve_processor (other_token g p) override ≡ resolve_processor p override
unfolding resolve_processor
resolve_processor-other_token g none override = refl
resolve_processor-other_token g (some ih) none = refl
resolve_processor-other_token g (some ih) (some o) = refl

seal_fields-with_token :
    (g : Str → Str) (secret : Secret) → seal_fields (with_token g secret) ≡ seal_fields secret
unfolding seal_fields auth_kind processor_kind
seal_fields-with_token g secret = elim (Option-cases secret.inject_header) [
  | inl e ↦ rw e refl
  | inr (ih, e) ↦ rw e refl
]

log_value-with_token :
    (g : Str → Str) (secret : Secret) → log_value (with_token g secret) ≡ log_value secret
unfolding log_value auth_kind processor_kind
log_value-with_token g secret = elim (Option-cases secret.inject_header) [
  | inl e ↦ rw e refl
  | inr (ih, e) ↦ rw e refl
]

-- What the checks of a seal read does not include its processor.
checks-with_token :
    ⦃u : Unicode⦄
    → (w : World) (r : Request) (upstream : Url) (g : Str → Str) (secret : Secret)
    → (validate_host w.lib.engine upstream.host (with_token g secret)
        ≡ validate_host w.lib.engine upstream.host secret)
      × (validate_path w.lib.engine upstream.path (with_token g secret)
          ≡ validate_path w.lib.engine upstream.path secret)
      × (validate_method r.method (with_token g secret) ≡ validate_method r.method secret)
unfolding validate_host validate_path validate_method
checks-with_token w r upstream g secret = (refl, refl, refl)

module _ ⦃u : Unicode⦄ (t : Texts) (w : World) (codec : Codec) (g : Str → Str) (s : Server)
    (r : Request) where
  abbrev other : World
  other = with_codec w codec

  same_gate {ℓ κ} :
      {A : Type ℓ} {B : Type κ} (fields : Fields) (m m' : Result Rejection A)
      (next next' : A → Logged B)
      → m ≡ m'
      → ((a : A) → SameLog (next a) (next' a))
      → SameLog (gate t r fields m next) (gate t r fields m' next')
  same_gate fields m m' next next' e h =
      subst (λ x. SameLog (gate t r fields m next) (gate t r fields x next')) e
        (gate-SameLog t r fields m next next' h)

  admit-SameLog :
      (fields : Fields) (upstream : Url) (secret : Secret) (override : Option Override)
      → SameLog
          (admit_logged t other s r fields upstream (with_token g secret) override)
          (admit_logged t w s r fields upstream secret override)
  unfolding admit_logged authorize
  admit-SameLog fields upstream secret override =
      let checks = checks-with_token w r upstream g secret in
      same_gate fields _ _ _ _ refl λ _.
        same_gate fields _ _ _ _
          (ap (wrap override_rejected)
            (resolve_processor-other_token g secret.inject_header override))
          λ (format, header_name). same_gate fields _ _ _ _ refl λ _.
            same_gate fields _ _ _ _ (ap (wrap not_permitted) checks.0) λ _.
              same_gate fields _ _ _ _ (ap (wrap not_permitted) checks.1)
                λ _. same_gate fields _ _ _ _ (ap (wrap not_permitted) checks.2) λ _. (refl, refl)

  opened-SameLog :
      (fields : Fields) (upstream : Url) (override : Option Override)
      (opened : Result OpenError (Secret × Bool))
      → SameLog
          (gate t r fields (wrap seal_open_failed (relabel g opened)) λ (secret, used).
            noted used
              (fields ++ seal_fields secret)
              (admit_logged t other s r (fields ++ seal_fields secret) upstream secret override))
          (gate t r fields (wrap seal_open_failed opened) λ (secret, used).
            noted used
              (fields ++ seal_fields secret)
              (admit_logged t w s r (fields ++ seal_fields secret) upstream secret override))
  opened-SameLog fields upstream override (err e) = (refl, refl)
  opened-SameLog fields upstream override (ok (secret, used)) =
      rw (seal_fields-with_token g secret) (
        noted-SameLog used (fields ++ seal_fields secret) _ _
          (admit-SameLog (fields ++ seal_fields secret) upstream secret override))

  proxy_sealed-SameLog :
      (fields : Fields) (upstream : Url) (blob : Str) (override : Option Override)
      → open_seal other.lib blob s.private_key (fallback_keys s.previous_private_key)
        ≡ relabel g (open_seal w.lib blob s.private_key (fallback_keys s.previous_private_key))
      → SameLog
          (proxy_sealed_logged t other s r fields upstream blob override)
          (proxy_sealed_logged t w s r fields upstream blob override)
  unfolding proxy_sealed_logged
  proxy_sealed-SameLog fields upstream blob override same = rw same (
      opened-SameLog fields upstream override
        (open_seal w.lib blob s.private_key (fallback_keys s.previous_private_key)))

  passthrough-SameLog :
      (fields : Fields) (upstream : Url)
      → SameLog
          (passthrough_logged t other s r fields upstream)
          (passthrough_logged t w s r fields upstream)
  unfolding passthrough_logged
  passthrough-SameLog fields upstream =
      gate-SameLog t r fields (wrap not_permitted (reject_non_standard_port upstream.host)) _ _
        λ _. (refl, refl)

  by_seal-SameLog :
      (fields : Fields) (upstream : Url) (p : Result HeaderError (Str × Option Override))
      → ((blob : Str) (override : Option Override)
          → p ≡ ok (blob, override)
          → open_seal other.lib blob s.private_key (fallback_keys s.previous_private_key)
            ≡ relabel g (open_seal w.lib blob s.private_key (fallback_keys s.previous_private_key)))
      → SameLog
          (by_seal_logged t other s r fields upstream p)
          (by_seal_logged t w s r fields upstream p)
  by_seal-SameLog fields upstream (ok (blob, override)) same =
      proxy_sealed-SameLog fields upstream blob override (same blob override refl)
  by_seal-SameLog fields upstream (err missing_secret) same =
      either-SameLog s.allow_passthrough _ _ _ _ (passthrough-SameLog fields upstream) (refl, refl)
  by_seal-SameLog fields upstream (err override_json) same = (refl, refl)

  -- Where the seal of a request opens, with another codec, to the secret that it opens to with this one but
  -- for its token, the request leaves the same log lines: none of them depends on the token.
  pub token_unlogged :
      ((blob : Str) (override : Option Override)
        → parse_sealed_header w.decode_override (get r.header header_sealed_secret)
          ≡ ok (blob, override)
        → open_seal
            (with_codec w codec).lib
            blob
            s.private_key
            (fallback_keys s.previous_private_key)
          ≡ relabel g (open_seal w.lib blob s.private_key (fallback_keys s.previous_private_key)))
      → let x = handle_forward_logged t (with_codec w codec) s r in
        let y = handle_forward_logged t w s r in
        (x.entries ≡ y.entries) × (x.last_fields ≡ y.last_fields)
  unfolding handle_forward_logged check_client upstream_of
  token_unlogged same =
      let many = ltb 1 (length (values r.header header_sealed_secret)) in
      let parsed = parse_sealed_header w.decode_override (get r.header header_sealed_secret) in
      gate-SameLog t r [] (check_size s r) _ _ λ _.
        gate-SameLog t r [] (check_client w s r) _ _ λ _.
          gate-SameLog t r [] (upstream_of w r) _ _ λ upstream.
            gate-SameLog t r (request_fields t r upstream) (refuse_if many multiple_sealed_secrets)
              _ _ λ _. by_seal-SameLog (request_fields t r upstream) upstream parsed same
