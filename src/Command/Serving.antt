-- ===== src/Command/Serving.antt =====
-- main.go: runServe from its flags to the server's configuration.
pub mod Checks
pub mod DevCert
pub mod Settings
use secretproxy.Prelude.{
  ℕ, zero, suc, ◌+◌, ◌-◌, ◌*◌, ◌/◌, ◌%◌, ◌^◌, ◌≤◌, ◌<◌, code, String, ◌≡◌, refl, sym, ap, ◌∙◌,
  ◌≡⟨◌⟩◌, ◌∎, ◌≢◌, ◌↔◌, ◌⊎◌, inl, inr, Bool, true, false, not, ◌&&◌, ◌||◌, Option, none, some, List,
  [], ◌∷◌, ◌++◌, append-nil, append_assoc, arith, ltb, leb, ◌==◌, if◌then◌else◌, ==_iff, Bool-cases,
  Option-cases, &&-eq-true, length, get_elem?, is_empty, length-append, any, all, last_or, All, Any,
  All-append, last_or-append, Result, ok, err, Check, ◌>>=◌, ◌>>◌, refuse_if, wrap, >>=-eq-ok,
  Result-cases, Ensures, Ensures->>=, Ensures-ok,
}
use secretproxy.Text.{Str, codes, Unicode}
use secretproxy.Command.Numbers.{ℤ, pos, negsuc}
use secretproxy.Net.Addr.{Parsers, Prefix}
use secretproxy.Seal.{PrivateKey}
use secretproxy.Proxy.Ingress.{parse_allowed_client_cidrs}
use secretproxy.Proxy.Egress.{auto_self_hostnames}
use secretproxy.Proxy.Server.{Server}
use secretproxy.Command.{System, LoadError, split_csv, load_private_key, load_previous_private_key}

pub record ServeFlags : Type 0 where
  pub private_key_file : Str
  pub private_key : Str
  pub previous_private_key_file : Str
  pub previous_private_key : Str
  pub tls_cert_file : Str
  pub tls_key_file : Str
  pub allow_no_auth : Bool
  pub allow_passthrough : Bool
  pub filtered_headers : Str
  pub disable_x_forwarded_for : Bool
  pub self_hostnames : Str
  pub trust_tls_terminator : Bool
  pub allowed_client_cidrs : Str
  pub trust_cloudflare_headers : Bool
  pub max_request_bytes : ℤ
  pub allow_dev_cert : Bool

-- A limit is in force only above 0, so that a negative one is the same as none.
abbrev limit_of : ℤ → ℕ
limit_of (pos n) = n
limit_of (negsuc n) = 0

-- LoadCert, which fails if a file is missing, IsDevCert, and os.Hostname.
pub record Host : Type 0 where
  pub parsers : Parsers
  pub cert_files_exist : (cert key : Str) → Bool
  pub is_dev_cert : Str → Bool
  pub hostname : Option Str

pub data ServeError : Type 0 where
  cloudflare_without_terminator tls_files_required cert_not_loaded dev_cert_refused : ServeError
  no_private_key no_previous_key : LoadError → ServeError
  bad_client_cidr : Str → ServeError

unfoldable pub check_tls : Host → ServeFlags → Check ServeError
check_tls host f =
    if f.trust_tls_terminator
    then ok tt
    else refuse_if (is_empty f.tls_cert_file || is_empty f.tls_key_file) tls_files_required
      >> refuse_if (not (host.cert_files_exist f.tls_cert_file f.tls_key_file)) cert_not_loaded
      >> refuse_if (host.is_dev_cert f.tls_cert_file && not f.allow_dev_cert) dev_cert_refused

-- The server of the flags, with the keys and the allowlist that have been read.
abbrev pub server_from :
    ⦃u : Unicode⦄ → Host → ServeFlags → PrivateKey → Option PrivateKey → List Prefix → Server
server_from host f priv prev allowed = record {
  private_key = priv;
  previous_private_key = prev;
  allow_no_auth = f.allow_no_auth;
  allow_passthrough = f.allow_passthrough;
  filtered_headers = split_csv f.filtered_headers;
  disable_x_forwarded_for = f.disable_x_forwarded_for;
  self_hostnames = auto_self_hostnames host.hostname (split_csv f.self_hostnames);
  allowed_client_cidrs = allowed;
  trust_tls_terminator = f.trust_tls_terminator;
  trust_cloudflare_headers = f.trust_cloudflare_headers;
  max_request_bytes = limit_of f.max_request_bytes;
  disable_egress_guard = false;
}

-- The method of http.Server that the goroutine of runServe calls: it takes plain connections, or those of TLS
-- with the certificate and key of the two files.
pub data ListenCall : Type 0 where
  listen_and_serve : ListenCall
  listen_and_serve_tls : (cert key : Str) → ListenCall

unfoldable pub listen_call : ServeFlags → ListenCall
listen_call f =
    if f.trust_tls_terminator
    then listen_and_serve
    else listen_and_serve_tls f.tls_cert_file f.tls_key_file

unfoldable pub configure : ⦃u : Unicode⦄ → System → Host → ServeFlags → Result ServeError Server
configure os host f = do
  refuse_if (f.trust_cloudflare_headers && not f.trust_tls_terminator) cloudflare_without_terminator
  priv ← wrap no_private_key (load_private_key os f.private_key_file f.private_key)
  prev ←
      wrap no_previous_key
        (load_previous_private_key os f.previous_private_key_file f.previous_private_key)
  check_tls host f
  allowed ←
      wrap bad_client_cidr
        (parse_allowed_client_cidrs host.parsers (split_csv f.allowed_client_cidrs))
  ok (server_from host f priv prev allowed)
