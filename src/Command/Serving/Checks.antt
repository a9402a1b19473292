-- ===== src/Command/Serving/Checks.antt =====
-- What a configuration has been checked for before the server listens.
use secretproxy.Prelude.{
  Option, List, sym, eq_of_ok, wrap-eq-ok, refuse_if-eq-ok, ◌≡◌, refl, ◌⊎◌, inl, inr, true, false,
  not, ◌&&◌, arith, ok, refuse_if, wrap, >>=-eq-ok,
}
use secretproxy.Text.{Unicode}
use secretproxy.Net.Addr.{Prefix}
use secretproxy.Seal.{PrivateKey}
use secretproxy.Proxy.Ingress.{parse_allowed_client_cidrs}
use secretproxy.Proxy.Server.{Server}
use secretproxy.Command.{System, split_csv, load_private_key, load_previous_private_key}
use secretproxy.Command.Serving.{
  ServeFlags, Host, cloudflare_without_terminator, no_private_key, no_previous_key, bad_client_cidr,
  server_from, check_tls, configure, listen_call, listen_and_serve, listen_and_serve_tls,
}

-- The certificate's files are there, and it is no development certificate, or one that is allowed.
abbrev pub HasCert : Host → ServeFlags → Type 0
HasCert host f =
    (host.cert_files_exist f.tls_cert_file f.tls_key_file ≡ true)
    × ((host.is_dev_cert f.tls_cert_file ≡ false) ⊎ (f.allow_dev_cert ≡ true))

check_tls_checked :
    (host : Host) (f : ServeFlags)
    → check_tls host f ≡ ok tt
    → (f.trust_tls_terminator ≡ true) ⊎ ((f.trust_tls_terminator ≡ false) × HasCert host f)
unfolding check_tls
check_tls_checked host f h = ground arith

-- What configure has gone through when it returns a server.
pub record IsConfigured ⦃u : Unicode⦄ (os : System) (host : Host) (f : ServeFlags) (s : Server)
    : Type 0 where
  pub priv : PrivateKey
  pub prev : Option PrivateKey
  pub allowed : List Prefix
  pub behind : f.trust_cloudflare_headers && not f.trust_tls_terminator ≡ false
  pub private_loaded : load_private_key os f.private_key_file f.private_key ≡ ok priv
  pub previous_loaded :
      load_previous_private_key os f.previous_private_key_file f.previous_private_key ≡ ok prev
  pub tls_checked : check_tls host f ≡ ok tt
  pub list_parsed :
      parse_allowed_client_cidrs host.parsers (split_csv f.allowed_client_cidrs) ≡ ok allowed
  pub made : s ≡ server_from host f priv prev allowed

pub configure-IsConfigured :
    ⦃u : Unicode⦄
    → (os : System) (host : Host) (f : ServeFlags) (s : Server) → configure os host f ≡ ok s
    → IsConfigured os host f s
unfolding configure
configure-IsConfigured os host f s h =
    let cloudflare = f.trust_cloudflare_headers && not f.trust_tls_terminator in
    let (_, e0, h0) = >>=-eq-ok (refuse_if cloudflare cloudflare_without_terminator) _ h in
    let loading = load_private_key os f.private_key_file f.private_key in
    let (priv, e1, h1) = >>=-eq-ok (wrap no_private_key loading) _ h0 in
    let previous =
      load_previous_private_key os f.previous_private_key_file f.previous_private_key in
    let (prev, e2, h2) = >>=-eq-ok (wrap no_previous_key previous) _ h1 in
    let (_, e3, h3) = >>=-eq-ok (check_tls host f) _ h2 in
    let listed = parse_allowed_client_cidrs host.parsers (split_csv f.allowed_client_cidrs) in
    let (allowed, e4, h4) = >>=-eq-ok (wrap bad_client_cidr listed) _ h3 in
    record {
      priv = priv;
      prev = prev;
      allowed = allowed;
      behind = refuse_if-eq-ok cloudflare cloudflare_without_terminator e0;
      private_loaded = wrap-eq-ok no_private_key loading e1;
      previous_loaded = wrap-eq-ok no_previous_key previous e2;
      tls_checked = e3;
      list_parsed = wrap-eq-ok bad_client_cidr listed e4;
      made = sym (eq_of_ok h4);
    }

pub listen_call-checked :
    (host : Host) (f : ServeFlags)
    → check_tls host f ≡ ok tt
    → ((listen_call f ≡ listen_and_serve) × (f.trust_tls_terminator ≡ true))
      ⊎ ((listen_call f ≡ listen_and_serve_tls f.tls_cert_file f.tls_key_file)
          × (f.trust_tls_terminator ≡ false)
          × HasCert host f)
unfolding listen_call
listen_call-checked host f h = elim (check_tls_checked host f h) [
  | inl behind ↦ inl (rw behind refl, behind)
  | inr (edge, cert) ↦ inr (rw edge refl, edge, cert)
]

-- A server that was configured listens by ListenAndServe only behind a terminator, and otherwise by
-- ListenAndServeTLS, with a certificate that is there and not an unwanted development one; believes Cloudflare only behind a
-- terminator; keeps the egress guard on; and has the keys and the allowlist that were given.
pub configure_checked :
    ⦃u : Unicode⦄
    → (os : System) (host : Host) (f : ServeFlags) (s : Server) → configure os host f ≡ ok s
    → (((listen_call f ≡ listen_and_serve) × (s.trust_tls_terminator ≡ true))
        ⊎ ((listen_call f ≡ listen_and_serve_tls f.tls_cert_file f.tls_key_file)
            × (s.trust_tls_terminator ≡ false)
            × HasCert host f))
      × ((s.trust_cloudflare_headers ≡ false) ⊎ (s.trust_tls_terminator ≡ true))
      × (s.disable_egress_guard ≡ false)
      × (load_private_key os f.private_key_file f.private_key ≡ ok s.private_key)
      × (load_previous_private_key os f.previous_private_key_file f.previous_private_key
          ≡ ok s.previous_private_key)
      × (parse_allowed_client_cidrs host.parsers (split_csv f.allowed_client_cidrs)
          ≡ ok s.allowed_client_cidrs)
configure_checked os host f s h =
    let c = configure-IsConfigured os host f s h in
    let refused = c.behind in
    rw (c.made) (
      listen_call-checked host f c.tls_checked,
      ground arith,
      refl,
      c.private_loaded,
      c.previous_loaded,
      c.list_parsed,
    )
