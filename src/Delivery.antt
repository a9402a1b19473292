-- ===== src/Delivery.antt =====
-- From the seal command to the upstream: a credential that is sealed, a client that uses it, and the proxy.
use secretproxy.Prelude.{
  ◌≡◌, ◌≢◌, refl, sym, ap, ◌∙◌, ◌⊎◌, inl, inr, true, false, none, some, [], ◌∷◌, arith, All, Result,
  ok, is_empty, Option,
}
use secretproxy.Text.{Str, Unicode}
use secretproxy.Text.Trimming.{IsPlain}
use secretproxy.Http.{Header, get, values}
use secretproxy.Encoding.Base64.Alphabet.{encode-ne-nil}
use secretproxy.Seal.{BearerAuth, NoAuth}
use secretproxy.Seal.Envelope.{verify_bearer}
use secretproxy.Seal.Envelope.Opening.{IsDigest}
use secretproxy.Seal.Envelope.Sealing.{IsCorrectBox, ReadsBack, HasOverhead}
use secretproxy.Proxy.Override.{
  Override, HeaderError, parse_sealed_header, resolve_processor, extract_bearer, or_default,
  default_format, default_header_name,
}
use secretproxy.Proxy.Override.Blob.{parse_sealed_header-encode}
use secretproxy.Proxy.Policy.{
  reject_non_standard_port, validate_host, validate_path, validate_method,
}
use secretproxy.Proxy.Server.{
  Server, Url, header_upstream_url, header_sealed_secret, header_auth_bearer,
}
use secretproxy.Proxy.Director.{Injection, target_of, director}
use secretproxy.Proxy.Forward.{World, Request, proxied, handle_forward, fallback_keys}
use secretproxy.Proxy.Forward.Gates.{IsWithin, IsAdmitted, IsAuthorized}
use secretproxy.Proxy.Forward.Proxied.{handle_forward_iff}
use secretproxy.Client.{Transport, Outgoing, round_trip}
use secretproxy.Client.Wire.{round_trip_read}
use secretproxy.Command.{System, resolve_public_key}
use secretproxy.Command.Sealing.{SealFlags, Printed, bearer_of, run_seal}
use secretproxy.Command.Sealing.Opens.{asked_for, run_seal-opens, run_seal-blob}

-- The injection of the token, format and header name that the flags gave, by default the usual ones.
abbrev pub injected : SealFlags → Injection
injected f = record {
  token = f.token;
  format = or_default default_format f.format;
  header_name = or_default default_header_name f.header_name;
}

module _ ⦃u : Unicode⦄ where
  auth_bearer_given :
      (w : World) (f : SealFlags)
      → f.without_auth ≡ false
      → ((f.without_auth ≡ true) × (bearer_of w.lib.crypto f ≡ none))
        ⊎ ((b : BearerAuth) × (bearer_of w.lib.crypto f ≡ some b)
            × (verify_bearer w.lib.crypto b f.auth_bearer ≡ true))
      → f.auth_bearer ≢ []
  auth_bearer_given w f off (inl (on, absent)) empty = absurd (ground arith)
  auth_bearer_given w f off (inr (b, e, v)) empty =
      let gone : is_empty f.auth_bearer ≡ true = ap is_empty empty in
      let absent : bearer_of w.lib.crypto f ≡ none = rw off (rw gone refl) in absurd (ground arith)

  get-values : (h : Header) (name value : Str) → values h name ≡ value ∷ [] → get h name ≡ value
  unfolding get values
  get-values h name value e = rw e refl

  bearer-IsAuthorized :
      (w : World) (s : Server) (r : Request) (f : SealFlags) (token : Str)
      → f.without_auth ≡ false
      → token ≡ f.auth_bearer
      → extract_bearer (get r.header header_auth_bearer) ≡ some token
      → ((f.without_auth ≡ true) × (bearer_of w.lib.crypto f ≡ none))
        ⊎ ((b : BearerAuth) × (bearer_of w.lib.crypto f ≡ some b)
            × (verify_bearer w.lib.crypto b f.auth_bearer ≡ true))
      → (n : Option NoAuth) → IsAuthorized w s r (bearer_of w.lib.crypto f) n
  bearer-IsAuthorized w s r f token off same read (inl (on, none_given)) n = absurd (ground arith)
  bearer-IsAuthorized w s r f token off same read (inr (b, e, v)) n = rw e (token, read, rw same v)

  resolved :
      (w : World) (f : SealFlags) (p : Printed)
      → resolve_processor (asked_for w.lib f p).inject_header none
        ≡ ok ((injected f).format, (injected f).header_name)
  unfolding resolve_processor
  resolved w f p = refl

  -- With a box that is correct and gives no empty text, a digest of 32 bytes and a codec that reads back this
  -- secret: a credential that the seal command sealed with a bearer to the server's key is injected into a
  -- request that a client of the library sends with it and with that bearer, which is plain ASCII without
  -- white space, if the server lets the client in, the body is within the limit, the URL is parsed, names a
  -- host and names port 443 or none, and the seal's own restrictions admit host, path and method.
  pub sealed_delivered :
      (w : World) (s : Server) (os : System) (f : SealFlags) (euid_bytes box_bytes : Str)
      (p : Printed) (string_of : Url → Str) (t : Transport) (req : Outgoing) (r : Request)
      (upstream : Url)
      → IsCorrectBox w.lib.crypto
      → HasOverhead w.lib.crypto
      → IsDigest w.lib.crypto
      → ReadsBack w.lib.codec (asked_for w.lib f p)
      → resolve_public_key os f.public_key f.public_key_url
        ≡ ok (w.lib.crypto.public_of s.private_key)
      → run_seal w.lib os f euid_bytes box_bytes ≡ ok p
      → f.without_auth ≡ false
      → t.sealed_secret ≡ p.blob
      → t.auth ≡ f.auth_bearer
      → All IsPlain t.auth
      → r.method ≡ req.method
      → r.header ≡ (round_trip string_of t req).header
      → string_of req.url ≢ []
      → w.parse_url (string_of req.url) ≡ some upstream
      → upstream.host ≢ []
      → (target_of upstream).host ≢ []
      → IsWithin s.max_request_bytes r.content_length
      → IsAdmitted w s r
      → reject_non_standard_port upstream.host ≡ ok tt
      → validate_host w.lib.engine upstream.host (asked_for w.lib f p) ≡ ok tt
      → validate_path w.lib.engine upstream.path (asked_for w.lib f p) ≡ ok tt
      → validate_method req.method (asked_for w.lib f p) ≡ ok tt
      → handle_forward w s r
        ≡ ok (proxied (director w.sprintf s (target_of upstream) (some (injected f)) r.header))
  sealed_delivered w s os f euid_bytes box_bytes p string_of t req r upstream box full digest reads
        key printed bearer blob auth plain method header url parsed host target within admitted port
        host_ok path_ok method_ok =
      let (opened, how) =
        run_seal-opens w.lib os f s.private_key (fallback_keys s.previous_private_key) euid_bytes
          box_bytes p box digest reads key printed in
      let (sealed, encoded, some_bytes, in_bytes) =
        run_seal-blob w.lib os f s.private_key euid_bytes box_bytes p box full key printed in
      let sent = round_trip string_of t req in
      let blob_given : t.sealed_secret ≢ [] =
        λ e. encode-ne-nil sealed some_bytes (sym encoded ∙ sym blob ∙ e) in
      let token_given : t.auth ≢ [] = λ e. auth_bearer_given w f bearer how (sym auth ∙ e) in
      let read = round_trip_read string_of t req blob_given token_given plain in
      let url_read : get r.header header_upstream_url ≡ string_of req.url =
        ap (λ h. get h header_upstream_url) header ∙ read.2 in
      let seals_read : values r.header header_sealed_secret ≡ p.blob ∷ [] =
        ap (λ h. values h header_sealed_secret) header ∙ read.3 ∙ ap (λ t. t ∷ []) blob in
      let seal_read = get-values r.header header_sealed_secret p.blob seals_read in
      (handle_forward_iff w s r
          (director w.sprintf s (target_of upstream) (some (injected f)) r.header)).1
        (record {
          within = within;
          admitted = admitted;
          upstream = upstream;
          given = λ e. url (sym url_read ∙ e);
          parsed = ap w.parse_url url_read ∙ parsed;
          has_host = host;
          one_seal = rw seals_read (omega arith);
          blob = p.blob;
          override = none;
          seal_header =
              ap (parse_sealed_header w.decode_override) (seal_read ∙ encoded)
              ∙ parse_sealed_header-encode w.decode_override sealed some_bytes in_bytes
              ∙ ap (λ t. let x : Result HeaderError (Str × Option Override) = ok (t, none) in x)
                  (sym encoded);
          unsealed = record {
            secret = asked_for w.lib f p;
            used_fallback = false;
            opened = opened;
            authorized =
                bearer-IsAuthorized w s r f t.auth bearer auth
                  (ap (λ h. extract_bearer (get h header_auth_bearer)) header ∙ read.4) how _;
            format = (injected f).format;
            header_name = (injected f).header_name;
            resolved = resolved w f p;
            port = port;
            host = host_ok;
            path = path_ok;
            method = ap (λ m. validate_method m (asked_for w.lib f p)) method ∙ method_ok;
            has_target = target;
            sent = refl;
          };
        })
