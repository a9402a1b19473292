-- ===== src/Proxy/Server.antt =====
-- proxy.go: the configuration of a Server, and the values that its handlers pass on.
use secretproxy.Prelude.{ℕ, Bool, Option, List}
use secretproxy.Text.{Str, codes}
use secretproxy.Net.Addr.{Prefix}
use secretproxy.Seal.{PrivateKey}

-- The wire names of pkg/client.
abbrev pub forward_path : Str
forward_path = codes "/v1/forward"

abbrev pub header_upstream_url : Str
header_upstream_url = codes "X-Upstream-URL"

abbrev pub header_sealed_secret : Str
header_sealed_secret = codes "X-Sealed-Secret"

abbrev pub header_auth_bearer : Str
header_auth_bearer = codes "X-Auth-Bearer"

abbrev pub public_key_path : Str
public_key_path = codes "/public-key"

abbrev pub health_path : Str
health_path = codes "/healthz"

abbrev pub ready_path : Str
ready_path = codes "/readyz"

-- A negative limit on bytes is no limit either, and is written 0. The private key is there: Handler
-- panics without one before any request is served.
pub record Server : Type 0 where
  pub private_key : PrivateKey
  pub previous_private_key : Option PrivateKey
  pub allow_no_auth : Bool
  pub allow_passthrough : Bool
  pub filtered_headers : List Str
  pub disable_x_forwarded_for : Bool
  pub self_hostnames : List Str
  pub allowed_client_cidrs : List Prefix
  pub trust_tls_terminator : Bool
  pub trust_cloudflare_headers : Bool
  pub max_request_bytes : ℕ
  pub disable_egress_guard : Bool

-- url.URL.
pub record Url : Type 0 where
  pub scheme : Str
  pub opaque : Str
  pub user : Option Str
  pub host : Str
  pub path : Str
  pub raw_path : Str
  pub raw_query : Str
  pub fragment : Str
