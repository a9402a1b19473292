-- ===== src/Proxy/Log.antt =====
-- proxy.go: the log lines of handleForward, passthrough, respondError and logForwardOutcome, beside the
-- result. The duration is left out of every line.
pub mod Handler
pub mod Token
use secretproxy.Prelude.{
  ℕ, ◌≡◌, Bool, true, false, Option, none, some, List, [], ◌∷◌, ◌++◌, if◌then◌else◌, length, ltb,
  is_empty, Result, ok, err, refuse_if, wrap,
}
use secretproxy.Text.{Str, codes, Unicode}
use secretproxy.Net.Addr.{Addr}
use secretproxy.Http.{get, values}
use secretproxy.Seal.{Secret, auth_kind, processor_kind}
use secretproxy.Seal.Envelope.{open_seal}
use secretproxy.Proxy.Policy.{
  reject_non_standard_port, validate_host, validate_path, validate_method,
}
use secretproxy.Proxy.Override.{
  Override, HeaderError, missing_secret, parse_sealed_header, resolve_processor,
}
use secretproxy.Proxy.Server.{Server, Url, header_upstream_url, header_sealed_secret}
use secretproxy.Proxy.Forward.{
  World, Request, Rejection, Forwarded, status, check_size, check_client, upstream_of, authorize,
  forward_to, injection, fallback_keys, proxied, passed_through, body_too_large, client_ip_error,
  client_ip_not_allowed, missing_upstream_url, bad_upstream_url, multiple_sealed_secrets,
  invalid_sealed_secret, seal_open_failed, bearer_mismatch, no_auth_refused, override_rejected,
  not_permitted,
}
use secretproxy.Proxy.Respond.{Read, Served, track_all, copy_error, log_event}

pub data Value : Type 0 where
  text : Str → Value
  texts : List Str → Value
  number : ℕ → Value

abbrev pub Fields : Type 0
Fields = List (Str × Value)

pub record Entry : Type 0 where
  pub warning : Bool
  pub event : Str
  pub fields : Fields

-- The text of a rejection's cause, which is `none` where the code passes nil; netip.Addr.String; and the keys
-- of url.Query, in the order in which the map is visited.
pub record Texts : Type 0 where
  pub cause : Request → Rejection → Option Str
  pub addr_string : Addr → Str
  pub query : Str → List Str

abbrev pub query_keys : Texts → Url → List Str
query_keys t u = if is_empty u.raw_query then [] else t.query u.raw_query

abbrev pub request_fields : Texts → Request → Url → Fields
request_fields t r upstream =
    (codes "method", text r.method)
    ∷ (codes "host", text upstream.host)
    ∷ (codes "path", text upstream.path)
    ∷ (codes "query_keys", texts (query_keys t upstream))
    ∷ []

unfoldable pub seal_fields : Secret → Fields
seal_fields secret =
    (codes "auth", text (auth_kind secret))
    ∷ (codes "processor", text (processor_kind secret))
    ∷ (codes "seal_euid", text secret.euid)
    ∷ (codes "seal_name", text secret.name)
    ∷ []

-- LogValue of a secret, by which the logger prints it.
pub log_value : Secret → Fields
log_value secret =
    (codes "auth", text (auth_kind secret))
    ∷ (codes "processor", text (processor_kind secret))
    ∷ (codes "euid", text secret.euid)
    ∷ (codes "name", text secret.name)
    ∷ (codes "allowed_hosts", texts secret.allowed_hosts)
    ∷ []

-- The message of each call of respondError.
unfoldable pub reason : Rejection → Str
reason body_too_large = codes "request body too large"
reason (client_ip_error e) = codes "client ip not allowed"
reason (client_ip_not_allowed a) = codes "client ip not allowed"
reason missing_upstream_url = codes "missing X-Upstream-URL"
reason bad_upstream_url = codes "bad X-Upstream-URL"
reason multiple_sealed_secrets = codes "multiple X-Sealed-Secret headers (chaining deferred)"
reason (invalid_sealed_secret e) = codes "invalid X-Sealed-Secret"
reason (seal_open_failed e) = codes "seal open failed"
reason bearer_mismatch = codes "bearer mismatch"
reason no_auth_refused = codes "no_auth refused (server lacks --allow-no-auth)"
reason (override_rejected e) = codes "override rejected"
reason (not_permitted e) = codes "request not permitted"

abbrev own_fields : Texts → Rejection → Fields
own_fields t (client_ip_not_allowed a) = (codes "client_ip", text (t.addr_string a)) ∷ []
own_fields t _ = []

abbrev error_field : Option Str → Fields
error_field none = []
error_field (some e) = (codes "error", text e) ∷ []

unfoldable pub respond_error : Texts → Request → Fields → Rejection → Entry
respond_error t r fields e = record {
  warning = true;
  event = codes "proxy_reject";
  fields =
      fields
      ++ (own_fields t e
          ++ (error_field (t.cause r e)
              ++ (codes "status", number (status e)) ∷ (codes "reason", text (reason e)) ∷ []));
}

-- The result, the lines that have been written, and the fields of the line that is written when the
-- response has been copied.
pub record Logged {ℓ} (A : Type ℓ) : Type ℓ where
  pub result : Result Rejection A
  pub entries : List Entry
  pub last_fields : Fields

abbrev pub gate {ℓ κ} :
    {A : Type ℓ} {B : Type κ}
    → Texts
    → Request
    → Fields
    → Result Rejection A
    → (A → Logged B)
    → Logged B
gate t r fields (err e) next = record {
  result = err e;
  entries = respond_error t r fields e ∷ [];
  last_fields = [];
}
gate t r fields (ok a) next = next a

abbrev pub fallback_entry : Fields → Entry
fallback_entry fields = record {
  warning = true;
  event = codes "seal_opened_via_previous_key";
  fields = fields;
}

abbrev pub noted {ℓ} : {A : Type ℓ} → (used_fallback : Bool) → Fields → Logged A → Logged A
noted false fields rest = rest
noted true fields rest = record rest { entries = fallback_entry fields ∷ rest.entries }

abbrev pub done {ℓ} : {A : Type ℓ} → Fields → A → Logged A
done fields a = record { result = ok a; entries = []; last_fields = fields }

-- The line of logForwardOutcome.
unfoldable outcome_entry : (event : Str) → List Read → Served → (sent_status : ℕ) → Fields → Entry
outcome_entry event reads served sent_status fields =
    let failure = copy_error (track_all none reads) served in
    let (name, warning) = log_event event failure in
    record {
      warning = warning;
      event = name;
      fields = fields ++ (codes "status", number sent_status) ∷ error_field failure;
    }

module _ ⦃u : Unicode⦄ (t : Texts) (w : World) (s : Server) (r : Request) where
  pub passthrough_logged : Fields → Url → Logged Forwarded
  passthrough_logged fields upstream =
      gate t r fields (wrap not_permitted (reject_non_standard_port upstream.host))
        λ _. done fields (forward_to w s r passed_through upstream none)

  unfoldable pub admit_logged : Fields → Url → Secret → Option Override → Logged Forwarded
  admit_logged fields upstream secret override =
      gate t r fields (authorize w s r secret.bearer_auth secret.no_auth) λ _.
        gate t r fields (wrap override_rejected (resolve_processor secret.inject_header override))
          λ (format, header_name).
            gate t r fields (wrap not_permitted (reject_non_standard_port upstream.host)) λ _.
              gate t r fields (wrap not_permitted (validate_host w.lib.engine upstream.host secret))
                λ _.
                  gate t r fields
                    (wrap not_permitted (validate_path w.lib.engine upstream.path secret))
                    λ _. gate t r fields (wrap not_permitted (validate_method r.method secret)) λ _.
                      done fields (
                        forward_to w s r proxied upstream
                          (injection secret.inject_header format header_name))

  unfoldable pub proxy_sealed_logged : Fields → Url → Str → Option Override → Logged Forwarded
  proxy_sealed_logged fields upstream blob override =
      gate t r fields
        (wrap seal_open_failed
          (open_seal w.lib blob s.private_key (fallback_keys s.previous_private_key)))
        λ (secret, used_fallback).
          noted used_fallback (fields ++ seal_fields secret)
            (admit_logged (fields ++ seal_fields secret) upstream secret override)

  abbrev pub by_seal_logged :
      Fields → Url → Result HeaderError (Str × Option Override) → Logged Forwarded
  by_seal_logged fields upstream (ok (blob, override)) =
      proxy_sealed_logged fields upstream blob override
  by_seal_logged fields upstream (err missing_secret) =
      if s.allow_passthrough
      then passthrough_logged fields upstream
      else gate t r fields (err (invalid_sealed_secret missing_secret)) (done fields)
  by_seal_logged fields upstream (err e) =
      gate t r fields (err (invalid_sealed_secret e)) (done fields)

  unfoldable pub handle_forward_logged : Logged Forwarded
  handle_forward_logged = gate t r [] (check_size s r) λ _. gate t r [] (check_client w s r) λ _.
      gate t r [] (upstream_of w r) λ upstream.
        gate t r (request_fields t r upstream)
          (refuse_if (ltb 1 (length (values r.header header_sealed_secret)))
            multiple_sealed_secrets)
          λ _.
            by_seal_logged (request_fields t r upstream) upstream
              (parse_sealed_header w.decode_override (get r.header header_sealed_secret))
