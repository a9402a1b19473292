-- ===== src/Command/Serving/Settings/Guarded.antt =====
-- What serve listens with, and what it warns of.
use secretproxy.Prelude.{
  ℕ, ◌==◌, ◌≡◌, ◌≢◌, refl, sym, ap, ◌∙◌, ◌⊎◌, inl, inr, Bool, true, false, Bool-cases, Option, none,
  some, List, [], ◌∷◌, arith, length, Any, ok, wrap, wrap-eq-ok, eq_of_ok, >>=-eq-ok,
}
use mathlib.Core.Path.{subst}
use secretproxy.Text.{Str, Unicode}
use secretproxy.Proxy.Server.{Server}
use secretproxy.Command.{System}
use secretproxy.Command.Serving.{
  ServeFlags, Host, ListenCall, listen_and_serve, listen_and_serve_tls, listen_call, check_tls,
  configure,
}
use secretproxy.Command.Serving.Checks.{listen_call-checked, IsConfigured, configure-IsConfigured}
use secretproxy.Command.Serving.Settings.{
  NumberParsers, Settings, TlsConfig, tls_13, HttpServer, Warning, startup_passthrough_open,
  startup_no_auth_enabled, startup_passthrough_enabled, bad_setting, not_configured, http_server,
  startup_warnings, serve_defaults, parsed_flags, set_up,
}

module _ ⦃u : Unicode⦄ where
  warned :
      (f : ServeFlags) (n : ℕ)
      → (f.allow_passthrough ≡ true
          → n ≡ 0
          → Any (λ w. w ≡ startup_passthrough_open) (startup_warnings f n))
        × (f.allow_passthrough ≡ true
            → n ≢ 0
            → Any (λ w. w ≡ startup_passthrough_enabled n) (startup_warnings f n))
        × (f.allow_no_auth ≡ true → Any (λ w. w ≡ startup_no_auth_enabled) (startup_warnings f n))
  unfolding startup_warnings
  warned f n = (
    λ on none_listed. rw on (rw none_listed (inl refl)),
    λ on listed.
        rw on (let some_listed : (n == 0) ≡ false = ground arith in rw some_listed (inl refl)),
    λ on. elim (Bool-cases f.allow_passthrough) [
      | inl passing ↦ rw passing (rw on (inr (inl refl)))
      | inr closed ↦ rw closed (rw on (inl refl))
    ],
  )

  -- Plain connections behind a terminator, or TLS 1.3 without HTTP/2 with files that are there.
  abbrev IsGuarded : Host → HttpServer → ListenCall → (terminator : Bool) → Type 0
  IsGuarded host h call terminator =
      ((call ≡ listen_and_serve) × (h.tls_config ≡ none) × (terminator ≡ true))
      ⊎ ((cert : Str) × (key : Str) × (c : TlsConfig) × (call ≡ listen_and_serve_tls cert key)
          × (host.cert_files_exist cert key ≡ true)
          × (h.tls_config ≡ some c)
          × (c.min_version ≡ 0x0304)
          × (c.http2 ≡ false))

  listen_call-IsGuarded :
      (host : Host) (d : Settings)
      → check_tls host d.flags ≡ ok tt
      → IsGuarded host (http_server d) (listen_call d.flags) d.flags.trust_tls_terminator
  unfolding http_server
  listen_call-IsGuarded host d checked = elim (listen_call-checked host d.flags checked) [
    | inl (call, behind) ↦ inl (call, rw behind refl, behind)
    | inr (call, edge, cert) ↦ inr (
      d.flags.tls_cert_file,
      d.flags.tls_key_file,
      tls_13,
      call,
      cert.0,
      rw edge refl,
      refl,
      refl,
    )
  ]

  length-ne-zero {ℓ} : {A : Type ℓ} (xs : List A) → xs ≢ [] → length xs ≢ 0
  length-ne-zero [] n h = n refl
  length-ne-zero (x ∷ xs) n h = omega arith

  abbrev IsServed : Host → Server × HttpServer × ListenCall × List Warning → Type 0
  IsServed host (s, h, call, ws) =
      IsGuarded host h call s.trust_tls_terminator
      × (s.allow_passthrough ≡ true
          → s.allowed_client_cidrs ≡ []
          → Any (λ w. w ≡ startup_passthrough_open) ws)
      × (s.allow_passthrough ≡ true
          → s.allowed_client_cidrs ≢ []
          → Any (λ w. w ≡ startup_passthrough_enabled (length s.allowed_client_cidrs)) ws)
      × (s.allow_no_auth ≡ true → Any (λ w. w ≡ startup_no_auth_enabled) ws)

  configured-IsServed :
      (os : System) (host : Host) (d : Settings) (s : Server)
      → IsConfigured os host d.flags s
      → IsServed host (
        s,
        http_server d,
        listen_call d.flags,
        startup_warnings d.flags (length s.allowed_client_cidrs),
      )
  configured-IsServed os host d s c =
      let (opened, enabled, unauthorised) = warned d.flags (length s.allowed_client_cidrs) in
      let passing : s.allow_passthrough ≡ d.flags.allow_passthrough =
        ap (λ t. t.allow_passthrough) c.made in
      (
        rw (ap (λ t. t.trust_tls_terminator) c.made) (listen_call-IsGuarded host d c.tls_checked),
        λ on empty. opened (sym passing ∙ on) (ap length empty),
        λ on listed. enabled (sym passing ∙ on) (length-ne-zero s.allowed_client_cidrs listed),
        λ on. unauthorised (sym (ap (λ t. t.allow_no_auth) c.made) ∙ on),
      )

  -- A server that is set up listens by ListenAndServe only behind a terminator, and else by
  -- ListenAndServeTLS, with a certificate and key that are there, by TLS 1.3 and without HTTP/2. It passes requests through, or accepts seals without authorisation, only with a warning, and a
  -- relay that is open to every client has a warning of its own.
  pub set_up_guarded :
      (os : System) (p : NumberParsers) (host : Host) (parse : Settings → Option Settings)
      (s : Server) (h : HttpServer) (call : ListenCall) (ws : List Warning)
      → set_up os p host parse ≡ ok (s, h, call, ws)
      → (((call ≡ listen_and_serve) × (h.tls_config ≡ none) × (s.trust_tls_terminator ≡ true))
          ⊎ ((cert : Str) × (key : Str) × (c : TlsConfig) × (call ≡ listen_and_serve_tls cert key)
              × (host.cert_files_exist cert key ≡ true)
              × (h.tls_config ≡ some c)
              × (c.min_version ≡ 0x0304)
              × (c.http2 ≡ false)))
        × (s.allow_passthrough ≡ true
            → s.allowed_client_cidrs ≡ []
            → Any (λ w. w ≡ startup_passthrough_open) ws)
        × (s.allow_passthrough ≡ true
            → s.allowed_client_cidrs ≢ []
            → Any (λ w. w ≡ startup_passthrough_enabled (length s.allowed_client_cidrs)) ws)
        × (s.allow_no_auth ≡ true → Any (λ w. w ≡ startup_no_auth_enabled) ws)
  unfolding set_up
  set_up_guarded os p host parse s h call ws e =
      let (d, e0, h0) = >>=-eq-ok (wrap bad_setting (serve_defaults os p)) _ e in
      let (settings, e1, h1) = >>=-eq-ok (parsed_flags (parse d)) _ h0 in
      let (server, e2, h2) =
        >>=-eq-ok (wrap not_configured (configure os host settings.flags)) _ h1 in
      let done = configure os host settings.flags in
      let c =
        configure-IsConfigured os host settings.flags server (wrap-eq-ok not_configured done e2) in
      subst (IsServed host) (eq_of_ok h2) (configured-IsServed os host settings server c)
