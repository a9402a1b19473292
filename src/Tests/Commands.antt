-- ===== src/Tests/Commands.antt =====
-- The theorems on the commands at concrete flags, and runs of the code.
use secretproxy.Prelude.{◌≡◌, refl, ◌⊎◌, true, false, none, some, [], ◌∷◌, if◌then◌else◌, ok}
use secretproxy.Text.{
  Str, codes, str_eq, is_space, trim_space, trim_left, trim_right, split, contains_byte, to_lower,
  lower_ascii, lower_byte,
}
use secretproxy.Text.Runes.{runes, runes_from, decode_rune}
use secretproxy.Encoding.Hex
use secretproxy.Encoding.Hex.{from_hex}
use secretproxy.Encoding.Base64
use secretproxy.Encoding.Base64.{symbol}
use secretproxy.Net.Addr.{v4, unmap, prefix_from, masked}
use secretproxy.Seal.{PrivateKey}
use secretproxy.Seal.Regex.{match_string}
use secretproxy.Seal.Anchors.{begins_with_anchor, ends_with_anchor, require_anchored_pattern}
use secretproxy.Seal.Validate.{
  validate, validate_inject_header, scan_all, scan_each, scan_runes, is_control,
  refuse_header_control_chars,
}
use secretproxy.Seal.Keys.{parse_private_key, parse_public_key, read_private_key_file}
use secretproxy.Seal.Envelope.{seal, seal_body, hash_bearer}
use secretproxy.Seal.Envelope.Sealing.{ReadsBack}
use secretproxy.Proxy.Ingress.{parse_allowed_client_cidrs, parse_cidr_or_ip}
use secretproxy.Proxy.Egress.{auto_self_hostnames, extra_names}
use secretproxy.Proxy.Server.{Server}
use secretproxy.Command.{
  System, non_blank, split_csv, load_private_key, load_previous_private_key, resolve_public_key,
  default_listen_addr,
}
use secretproxy.Command.Sealing.{SealFlags, Printed, run_seal}
use secretproxy.Command.Sealing.Opens.{asked_for}
use secretproxy.Command.Serving.{
  listen_call, listen_and_serve, listen_and_serve_tls, ServeFlags, Host, check_tls, configure,
}
use secretproxy.Command.Numbers.{pos}
use secretproxy.Command.Serving.Checks.{configure_checked, HasCert}
use secretproxy.Tests.Samples.{plain, no_folding, codec-ReadsBack, stripe, lib, parsers}

unfoldable pub code_of : Unit {0}
unfolding run_seal resolve_public_key split_csv non_blank split trim_space trim_left trim_right
    is_space parse_public_key parse_private_key read_private_key_file load_private_key
    load_previous_private_key Hex.decode from_hex seal seal_body validate validate_inject_header
    scan_all scan_each refuse_header_control_chars scan_runes is_control runes runes_from
    decode_rune require_anchored_pattern begins_with_anchor ends_with_anchor match_string str_eq
    Base64.encode symbol hash_bearer check_tls configure parse_allowed_client_cidrs parse_cidr_or_ip
    contains_byte unmap prefix_from masked auto_self_hostnames extra_names to_lower lower_ascii
    lower_byte default_listen_addr
code_of = tt

abbrev pub server_key : PrivateKey
server_key = record { bytes = codes "0123456789abcdef0123456789ABCDEF" }

abbrev pub server_key_hex : Str
server_key_hex = codes "3031323334353637383961626364656630313233343536373839414243444546"

abbrev pub system : System
system = record {
  getenv = λ key. if str_eq key (codes "SECRET_PROXY_PUBLIC_KEY") then server_key_hex else [];
  read_file = λ path. if str_eq path (codes "key") then some server_key_hex else none;
  parse_url = λ s. none;
  fetch = λ s. none;
}

csv_split : split_csv (codes " a, ,b,") ≡ codes "a" ∷ codes "b" ∷ []
unfolding code_of
csv_split = refl

port_from_nothing : default_listen_addr system ≡ codes ":8443"
unfolding code_of
port_from_nothing = refl

abbrev pub seal_flags : SealFlags
seal_flags = record {
  token = codes "sk_live_1";
  auth_bearer = codes "client-token";
  without_auth = false;
  allow_host = codes "api.stripe.com";
  allow_host_pattern = [];
  allow_path_prefix = codes "/v1/charges,";
  allow_path_pattern = [];
  allow_method = codes " POST";
  processor = codes "inject-header";
  format = [];
  header_name = [];
  allowed_format = codes "Token %s";
  allowed_header_name = [];
  public_key = [];
  public_key_url = [];
  name = codes "stripe";
  euid = codes "e1";
}

abbrev pub stripe_printed : Printed
stripe_printed = record {
  euid = codes "e1";
  name = codes "stripe";
  blob = Base64.encode (48 ∷ codes "stripe");
}

pub asked_secret_lem : asked_for lib seal_flags stripe_printed ≡ stripe
unfolding code_of
asked_secret_lem = refl

pub asked_for-ReadsBack : ReadsBack lib.codec (asked_for lib seal_flags stripe_printed)
asked_for-ReadsBack = rw asked_secret_lem codec-ReadsBack

pub key_resolved : resolve_public_key system [] [] ≡ ok (lib.crypto.public_of server_key)
unfolding code_of
key_resolved = refl

pub stripe_command : run_seal lib system seal_flags [] [] ≡ ok stripe_printed
unfolding code_of
stripe_command = refl

abbrev pub host : Host
host = record {
  parsers = parsers;
  cert_files_exist = λ cert key. true;
  is_dev_cert = λ cert. false;
  hostname = some (codes "Box");
}

abbrev pub serve_flags : ServeFlags
serve_flags = record {
  private_key_file = codes "key";
  private_key = [];
  previous_private_key_file = [];
  previous_private_key = [];
  tls_cert_file = codes "cert.pem";
  tls_key_file = codes "key.pem";
  allow_no_auth = false;
  allow_passthrough = false;
  filtered_headers = codes "Cookie";
  disable_x_forwarded_for = true;
  self_hostnames = codes "proxy.example.com";
  trust_tls_terminator = false;
  allowed_client_cidrs = codes "10.0.0.7";
  trust_cloudflare_headers = false;
  max_request_bytes = pos 1000;
  allow_dev_cert = false;
}

abbrev pub configured : Server
configured = record {
  private_key = server_key;
  previous_private_key = none;
  allow_no_auth = false;
  allow_passthrough = false;
  filtered_headers = codes "Cookie" ∷ [];
  disable_x_forwarded_for = true;
  self_hostnames =
      codes "localhost"
      ∷ codes "127.0.0.1"
      ∷ codes "::1"
      ∷ codes "box"
      ∷ codes "proxy.example.com"
      ∷ [];
  allowed_client_cidrs = record { addr = v4 0x0a000007; bits = 32 } ∷ [];
  trust_tls_terminator = false;
  trust_cloudflare_headers = false;
  max_request_bytes = 1000;
  disable_egress_guard = false;
}

flags_configured : configure system host serve_flags ≡ ok configured
unfolding code_of
flags_configured = refl

configure_checked_example :
    (((listen_call serve_flags ≡ listen_and_serve) × (configured.trust_tls_terminator ≡ true))
      ⊎ ((listen_call serve_flags
            ≡ listen_and_serve_tls serve_flags.tls_cert_file serve_flags.tls_key_file)
          × (configured.trust_tls_terminator ≡ false)
          × HasCert host serve_flags))
    × ((configured.trust_cloudflare_headers ≡ false) ⊎ (configured.trust_tls_terminator ≡ true))
    × (configured.disable_egress_guard ≡ false)
    × (load_private_key system serve_flags.private_key_file serve_flags.private_key
        ≡ ok configured.private_key)
    × (load_previous_private_key system serve_flags.previous_private_key_file
          serve_flags.previous_private_key
        ≡ ok configured.previous_private_key)
    × (parse_allowed_client_cidrs host.parsers (split_csv serve_flags.allowed_client_cidrs)
        ≡ ok configured.allowed_client_cidrs)
configure_checked_example = configure_checked system host serve_flags configured flags_configured
