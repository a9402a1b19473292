-- ===== src/Tests/Startups.antt =====
-- The start of serve with an open relay and with a typo, the request command, and the choice of a command.
use secretproxy.Prelude.{
  ◌≡◌, ◌≢◌, refl, ◌⊎◌, true, false, Option, none, some, [], ◌∷◌, if◌then◌else◌, length, Any, ok,
  err,
}
use secretproxy.Text.{Str, codes, str_eq}
use secretproxy.Proxy.Server.{Server}
use secretproxy.Client.{
  Transport, Outgoing, with_sealed_secret, with_auth, with_proxy_tls, new_transport,
}
use secretproxy.Command.{System, SettingError, bad_number, env_or, env_bool, env_parsed}
use secretproxy.Command.Numbers.{pos}
use secretproxy.Command.Serving.{
  ListenCall, listen_call, listen_and_serve, listen_and_serve_tls, ServeFlags,
}
use secretproxy.Command.Serving.Settings.{
  NumberParsers, Settings, max_bytes_key, read_timeout_key, idle_timeout_key, max_bytes_fallback,
  read_timeout_fallback, idle_timeout_fallback, TlsConfig, HttpServer, startup_passthrough_open,
  startup_no_auth_enabled, startup_passthrough_enabled, bad_setting, http_server, startup_warnings,
  serve_defaults, set_up, tls_13,
}
use secretproxy.Command.Serving.Settings.FailFast.{IsTypo, IsRead, settings-IsRead}
use secretproxy.Command.Serving.Settings.Guarded.{set_up_guarded}
use secretproxy.Command.Requesting.{
  RequestFlags, Response, HttpClient, run_request, chosen, exit_status,
}
use secretproxy.Command.Requesting.Sent.{IsHttp, run_request-sent}
use secretproxy.Tests.Samples.{plain, charge_url}
use secretproxy.Tests.Commands.{code_of, system, host, serve_flags, configured}

-- Only 100 is a number.
abbrev numbers : NumberParsers
numbers = record {
  parse_int = λ s. if str_eq s (codes "100") then some (pos 100) else none;
  parse_duration = λ s. none;
}

abbrev typo : System
typo = record system { getenv = λ key. if str_eq key max_bytes_key then codes "10mb" else [] }

typo_refused :
    set_up typo numbers host (λ d. some d)
    ≡ err (bad_setting (bad_number max_bytes_key (codes "10mb")))
unfolding code_of set_up serve_defaults env_parsed
typo_refused = refl

settings-IsRead_example :
    let any_typo =
      IsTypo typo numbers.parse_int max_bytes_key
      ⊎ (IsTypo typo numbers.parse_duration read_timeout_key
          ⊎ IsTypo typo numbers.parse_duration idle_timeout_key) in
    (any_typo
      → (e : SettingError) × ((h : _) (parse : Settings → Option Settings)
          → set_up typo numbers h parse ≡ err (bad_setting e)))
    × ((any_typo → ⊥)
        → (d : Settings) × (serve_defaults typo numbers ≡ ok d)
          × IsRead typo numbers.parse_int max_bytes_key max_bytes_fallback d.flags.max_request_bytes
          × IsRead typo numbers.parse_duration read_timeout_key read_timeout_fallback d.read_timeout
          × IsRead typo numbers.parse_duration idle_timeout_key idle_timeout_fallback
              d.idle_timeout)
settings-IsRead_example = settings-IsRead typo numbers

abbrev relay : ServeFlags
relay = record serve_flags { allow_passthrough = true; allowed_client_cidrs = [] }

abbrev relay_server : Server
relay_server = record configured { allow_passthrough = true; allowed_client_cidrs = [] }

abbrev given : Settings → Option Settings
given d = some (record d { flags = relay })

abbrev listening : HttpServer
listening = record {
  addr = codes ":8443";
  read_header_timeout = pos 10000000000;
  read_timeout = pos 60000000000;
  idle_timeout = pos 120000000000;
  tls_config = some tls_13;
}

abbrev relay_call : ListenCall
relay_call = listen_and_serve_tls (codes "cert.pem") (codes "key.pem")

relay_set_up :
    set_up system numbers host given
    ≡ ok (relay_server, listening, relay_call, startup_passthrough_open ∷ [])
unfolding listen_call code_of set_up serve_defaults env_parsed env_or env_bool http_server
    startup_warnings
relay_set_up = refl

set_up_guarded_example :
    (((relay_call ≡ listen_and_serve)
        × (listening.tls_config ≡ none)
        × (relay_server.trust_tls_terminator ≡ true))
      ⊎ ((cert : Str) × (key : Str) × (c : TlsConfig) × (relay_call ≡ listen_and_serve_tls cert key)
          × (host.cert_files_exist cert key ≡ true)
          × (listening.tls_config ≡ some c)
          × (c.min_version ≡ 0x0304)
          × (c.http2 ≡ false)))
    × (relay_server.allow_passthrough ≡ true
        → relay_server.allowed_client_cidrs ≡ []
        → Any (λ w. w ≡ startup_passthrough_open) (startup_passthrough_open ∷ []))
    × (relay_server.allow_passthrough ≡ true
        → relay_server.allowed_client_cidrs ≢ []
        → Any
            (λ w. w ≡ startup_passthrough_enabled (length relay_server.allowed_client_cidrs))
            (startup_passthrough_open ∷ []))
    × (relay_server.allow_no_auth ≡ true
        → Any (λ w. w ≡ startup_no_auth_enabled) (startup_passthrough_open ∷ []))
set_up_guarded_example =
    set_up_guarded system numbers host given relay_server listening relay_call
      (startup_passthrough_open ∷ []) relay_set_up

abbrev client_system : System
client_system = record system {
  getenv = λ key. if str_eq key (codes "AUTH_TOKEN") then codes "client-token" else codes "blob";
  parse_url = λ s. some charge_url;
}

abbrev get_request : Outgoing
get_request = record { method = codes "GET"; url = charge_url; host = []; header = λ key. none }

abbrev http : HttpClient
http = record {
  new_request = λ method url body. some get_request;
  do_request = λ rt req. some (record { status = codes "200 OK"; body = some (codes "{}") });
}

abbrev request_flags : RequestFlags
request_flags = record {
  proxy_url = codes "https://localhost:8443";
  url = codes "https://api.stripe.com/v1/charges";
  method = codes "GET";
  body = [];
  proxy_insecure = false;
}

request_printed :
    run_request client_system http request_flags ≡ ok (codes "status: 200 OK" ∷ codes "{}" ∷ [])
unfolding run_request new_transport with_sealed_secret with_auth with_proxy_tls str_eq
request_printed = refl

run_request-sent_example :
    (request_flags.url ≢ [])
    × ((rt : Transport) × (req : Outgoing) × (resp : Response) × (http.new_request
            request_flags.method request_flags.url request_flags.body
          ≡ some req)
        × (http.do_request rt req ≡ some resp)
        × (client_system.parse_url request_flags.proxy_url ≡ some rt.proxy_url)
        × IsHttp rt.proxy_url.scheme
        × (rt.sealed_secret ≡ client_system.getenv (codes "SEALED_SECRET"))
        × (rt.auth ≡ client_system.getenv (codes "AUTH_TOKEN"))
        × (rt.insecure_skip_verify ≡ (if request_flags.proxy_insecure then some true else none)))
run_request-sent_example =
    run_request-sent client_system http request_flags (codes "status: 200 OK" ∷ codes "{}" ∷ [])
      request_printed

-- No command, an unknown one, and one that fails.
exits :
    (exit_status (λ c args. true) [] ≡ 2)
    × (exit_status (λ c args. true) (codes "sael" ∷ []) ≡ 2)
    × (exit_status (λ c args. true) (codes "serve" ∷ []) ≡ 1)
    × (exit_status (λ c args. true) (codes "--help" ∷ []) ≡ 0)
unfolding exit_status chosen str_eq
exits = (refl, refl, refl, refl)
