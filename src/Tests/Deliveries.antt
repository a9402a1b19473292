-- ===== src/Tests/Deliveries.antt =====
-- The sample credential, sealed by the command, sent by the client and injected by the proxy.
use secretproxy.Prelude.{◌≡◌, ◌≢◌, refl, ap, ◌∙◌, inr, none, some, [], ◌∷◌, arith, All, ok}
use secretproxy.Text.{
  Str, codes, str_eq, split, cut, count_byte, contains_byte, trim_space, trim_left, trim_right,
  to_lower, is_space, lower_byte, lower_ascii, has_prefix, ends_with, strip_prefix,
}
use secretproxy.Text.Trimming.{IsPlain}
use secretproxy.Encoding.Hex.{from_hex}
use secretproxy.Encoding.Base64
use secretproxy.Net.{cut_last, split_host_port}
use secretproxy.Net.Addr
use secretproxy.Net.Addr.{v4, unmap, prefix_from, masked}
use secretproxy.Net.Unescape.{path_unescape}
use secretproxy.Http.{get, values, canonical, title, title_byte, is_token_byte, put, set}
use secretproxy.Seal.Anchors.{require_anchored_pattern, begins_with_anchor, ends_with_anchor}
use secretproxy.Seal.Regex.{match_string}
use secretproxy.Proxy.Dots.{refuse_dot_segments, dot_rounds, first_dot}
use secretproxy.Proxy.Policy
use secretproxy.Proxy.Policy.{
  reject_non_standard_port, strip_port, validate_host, host_listed, validate_path, prefix_admits,
  validate_method,
}
use secretproxy.Proxy.Ingress.{
  client_ip_from_request, parse_ip_maybe_port, trim_brackets, ip_in_prefixes,
}
use secretproxy.Proxy.Server.{Server, Url}
use secretproxy.Proxy.Director.{target_of, director}
use secretproxy.Proxy.Forward.{Request, proxied, handle_forward}
use secretproxy.Proxy.Forward.Gates.{IsAdmitted}
use secretproxy.Client.{Transport, Outgoing, round_trip}
use secretproxy.Command.Sealing.Opens.{asked_for}
use secretproxy.Delivery.{injected, sealed_delivered}
use secretproxy.Tests.Samples.{
  plain, no_folding, crypto-IsCorrectBox, crypto-HasOverhead, crypto-IsDigest, world, server,
  charge_url, of_lines, forwarded_for,
}
use secretproxy.Tests.Commands.{
  server_key, system, seal_flags, stripe_printed, asked_secret_lem, asked_for-ReadsBack,
  key_resolved, stripe_command,
}

unfoldable code_of : Unit {0}
unfolding str_eq split cut count_byte contains_byte trim_space trim_left trim_right to_lower
    is_space lower_byte lower_ascii has_prefix ends_with strip_prefix from_hex cut_last
    split_host_port unmap prefix_from masked path_unescape get values canonical title title_byte
    is_token_byte put set require_anchored_pattern begins_with_anchor ends_with_anchor match_string
    refuse_dot_segments dot_rounds first_dot Policy.contains reject_non_standard_port strip_port
    validate_host host_listed validate_path prefix_admits validate_method client_ip_from_request
    parse_ip_maybe_port trim_brackets ip_in_prefixes Addr.contains target_of round_trip
    Base64.encode
code_of = tt

abbrev keyed : Server
keyed = record server { private_key = server_key }

abbrev string_of : Url → Str
string_of u = codes "https://me@API.stripe.com/v1/charges/ch_1"

abbrev transport : Transport
transport = record {
  insecure_skip_verify = none;
  proxy_url = charge_url;
  sealed_secret = stripe_printed.blob;
  auth = codes "client-token";
}

abbrev outgoing : Outgoing
outgoing = record {
  method = codes "POST";
  url = charge_url;
  host = codes "api.stripe.com";
  header = of_lines (forwarded_for ∷ []);
}

abbrev arriving : Request
arriving = record {
  method = codes "POST";
  content_length = some 12;
  remote_addr = codes "192.0.2.1:443";
  header = (round_trip string_of transport outgoing).header;
}

token_IsPlain : All IsPlain (codes "client-token")
unfolding is_space
token_IsPlain = ground arith

header_lem : arriving.header ≡ (round_trip string_of transport outgoing).header
header_lem = refl

client_admitted : IsAdmitted world keyed arriving
unfolding code_of
client_admitted = inr (v4 0x0a000007, refl, refl)

url_parsed : world.parse_url (string_of outgoing.url) ≡ some charge_url
unfolding code_of
url_parsed = refl

has_target : (target_of charge_url).host ≢ []
unfolding code_of
has_target h = cc

port_admitted : reject_non_standard_port charge_url.host ≡ ok tt
unfolding code_of
port_admitted = refl

host_admitted :
    validate_host world.lib.engine charge_url.host (asked_for world.lib seal_flags stripe_printed)
    ≡ ok tt
unfolding code_of
host_admitted = ap (validate_host world.lib.engine charge_url.host) asked_secret_lem ∙ refl

path_admitted :
    validate_path world.lib.engine charge_url.path (asked_for world.lib seal_flags stripe_printed)
    ≡ ok tt
unfolding code_of
path_admitted = ap (validate_path world.lib.engine charge_url.path) asked_secret_lem ∙ refl

method_admitted :
    validate_method outgoing.method (asked_for world.lib seal_flags stripe_printed) ≡ ok tt
unfolding code_of
method_admitted = ap (validate_method outgoing.method) asked_secret_lem ∙ refl

sealed_delivered_example :
    handle_forward world keyed arriving
    ≡ ok (
        proxied (
          director world.sprintf keyed
            (target_of charge_url)
            (some (injected seal_flags))
            arriving.header))
sealed_delivered_example =
    sealed_delivered world keyed system seal_flags [] [] stripe_printed string_of transport outgoing
      arriving charge_url crypto-IsCorrectBox crypto-HasOverhead crypto-IsDigest asked_for-ReadsBack
      key_resolved stripe_command refl refl refl token_IsPlain refl header_lem (λ h. cc) url_parsed
      (λ h. cc) has_target (λ h. omega arith) client_admitted port_admitted host_admitted
      path_admitted method_admitted
