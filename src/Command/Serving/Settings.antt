-- ===== src/Command/Serving/Settings.antt =====
-- main.go: runServe from the environment to its flags, and what it makes of them: the http.Server, the
-- warnings at the start, the level of the log.
pub mod FailFast
pub mod Guarded
use secretproxy.Prelude.{
  ℕ, ◌*◌, ◌==◌, Bool, true, false, not, ◌&&◌, Option, none, some, List, [], ◌∷◌, ◌++◌,
  if◌then◌else◌, is_empty, length, Result, ok, err, wrap, ◌>>=◌, ◌>>◌,
}
use secretproxy.Text.{Str, codes, str_eq, Unicode, to_lower}
use secretproxy.Proxy.Server.{Server}
use secretproxy.Command.{
  System, SettingError, bad_number, bad_duration, env_or, env_bool, env_parsed, default_listen_addr,
}
use secretproxy.Command.Serving.{ServeFlags, Host, ServeError, ListenCall, listen_call, configure}
use secretproxy.Command.Numbers.{ℤ, pos}

-- strconv.ParseInt and time.ParseDuration: bytes, and nanoseconds.
pub record NumberParsers : Type 0 where
  pub parse_int : Str → Option ℤ
  pub parse_duration : Str → Option ℤ

-- All flags of serve.
pub record Settings : Type 0 where
  pub flags : ServeFlags
  pub listen_address : Str
  pub log_level : Str
  pub read_timeout : ℤ
  pub idle_timeout : ℤ

abbrev pub max_bytes_key : Str
max_bytes_key = codes "SECRET_PROXY_MAX_REQUEST_BYTES"

abbrev pub read_timeout_key : Str
read_timeout_key = codes "SECRET_PROXY_READ_TIMEOUT"

abbrev pub idle_timeout_key : Str
idle_timeout_key = codes "SECRET_PROXY_IDLE_TIMEOUT"

-- time.Second.
abbrev second : ℕ
second = 1000 * 1000 * 1000

abbrev pub max_bytes_fallback : ℤ
max_bytes_fallback = pos (10 * 1024 * 1024)

abbrev pub read_timeout_fallback : ℤ
read_timeout_fallback = pos (60 * second)

abbrev pub idle_timeout_fallback : ℤ
idle_timeout_fallback = pos (120 * second)

pub record TlsConfig : Type 0 where
  pub min_version : ℕ
  pub next_protos : List Str
  pub http2 : Bool

pub record HttpServer : Type 0 where
  pub addr : Str
  pub read_header_timeout : ℤ
  pub read_timeout : ℤ
  pub idle_timeout : ℤ
  pub tls_config : Option TlsConfig

pub data Warning : Type 0 where
  startup_passthrough_open startup_no_auth_enabled : Warning
  startup_passthrough_enabled : (allowed_client_cidrs_count : ℕ) → Warning

pub data SetupError : Type 0 where
  bad_setting : SettingError → SetupError
  flags_refused : SetupError
  not_configured : ServeError → SetupError

-- TLS 1.3, by an empty TLSNextProto without HTTP/2.
abbrev pub tls_13 : TlsConfig
tls_13 = record { min_version = 0x0304; next_protos = codes "http/1.1" ∷ []; http2 = false }

unfoldable pub http_server : Settings → HttpServer
http_server s = record {
  addr = s.listen_address;
  read_header_timeout = pos (10 * second);
  read_timeout = s.read_timeout;
  idle_timeout = s.idle_timeout;
  tls_config = if s.flags.trust_tls_terminator then none else some tls_13;
}

unfoldable pub startup_warnings : ServeFlags → (allowed : ℕ) → List Warning
startup_warnings f allowed =
    (if f.allow_passthrough
      then (if allowed == 0 then startup_passthrough_open else startup_passthrough_enabled allowed)
        ∷ []
      else [])
    ++ (if f.allow_no_auth then startup_no_auth_enabled ∷ [] else [])

data Level : Type 0 where
  level_debug level_info level_warn level_error : Level

module _ ⦃u : Unicode⦄ where
  -- newLogger.
  unfoldable level_of : Str → Level
  level_of level =
      let l = to_lower level in
      if str_eq l (codes "debug")
      then level_debug
      else if str_eq l (codes "warn")
      then level_warn
      else if str_eq l (codes "error")
      then level_error
      else level_info

  -- The defaults of the flags, with the three that have been parsed.
  abbrev pub settings_from : System → (max_bytes read_timeout idle_timeout : ℤ) → Settings
  settings_from os max_bytes read_timeout idle_timeout = record {
    flags = record {
      private_key_file = os.getenv (codes "SECRET_PROXY_PRIVATE_KEY_FILE");
      private_key = os.getenv (codes "SECRET_PROXY_PRIVATE_KEY");
      previous_private_key_file = os.getenv (codes "SECRET_PROXY_PREVIOUS_PRIVATE_KEY_FILE");
      previous_private_key = os.getenv (codes "SECRET_PROXY_PREVIOUS_PRIVATE_KEY");
      tls_cert_file = os.getenv (codes "SECRET_PROXY_TLS_CERT_FILE");
      tls_key_file = os.getenv (codes "SECRET_PROXY_TLS_KEY_FILE");
      allow_no_auth = env_bool os (codes "SECRET_PROXY_ALLOW_NO_AUTH");
      allow_passthrough = env_bool os (codes "SECRET_PROXY_ALLOW_PASSTHROUGH");
      filtered_headers = os.getenv (codes "SECRET_PROXY_FILTERED_HEADERS");
      disable_x_forwarded_for = env_bool os (codes "SECRET_PROXY_DISABLE_X_FORWARDED_FOR");
      self_hostnames = os.getenv (codes "SECRET_PROXY_SELF_HOSTNAMES");
      trust_tls_terminator = env_bool os (codes "SECRET_PROXY_TRUST_TLS_TERMINATOR");
      allowed_client_cidrs = os.getenv (codes "SECRET_PROXY_ALLOWED_CLIENT_CIDRS");
      trust_cloudflare_headers = env_bool os (codes "SECRET_PROXY_TRUST_CLOUDFLARE_HEADERS");
      max_request_bytes = max_bytes;
      allow_dev_cert = env_bool os (codes "SECRET_PROXY_ALLOW_DEV_CERT");
    };
    listen_address = default_listen_addr os;
    log_level = env_or os (codes "SECRET_PROXY_LOG_LEVEL") (codes "info");
    read_timeout = read_timeout;
    idle_timeout = idle_timeout;
  }

  unfoldable pub serve_defaults : System → NumberParsers → Result SettingError Settings
  serve_defaults os p = do
    max_bytes ← env_parsed bad_number os p.parse_int max_bytes_key max_bytes_fallback
    read_timeout ←
        env_parsed bad_duration os p.parse_duration read_timeout_key read_timeout_fallback
    idle_timeout ←
        env_parsed bad_duration os p.parse_duration idle_timeout_key idle_timeout_fallback
    ok (settings_from os max_bytes read_timeout idle_timeout)

  -- fs.Parse, which overrides the defaults by the arguments, is an argument.
  abbrev pub parsed_flags : Option Settings → Result SetupError Settings
  parsed_flags none = err flags_refused
  parsed_flags (some s) = ok s

  -- What serve listens with, by which call, and its warnings.
  unfoldable pub set_up :
      System
      → NumberParsers
      → Host
      → (Settings → Option Settings)
      → Result SetupError (Server × HttpServer × ListenCall × List Warning)
  set_up os p host parse = do
    defaults ← wrap bad_setting (serve_defaults os p)
    settings ← parsed_flags (parse defaults)
    server ← wrap not_configured (configure os host settings.flags)
    ok (
      server,
      http_server settings,
      listen_call settings.flags,
      startup_warnings settings.flags (length server.allowed_client_cidrs),
    )
