-- ===== src/Tests/Policy.antt =====
-- The theorems on the policy of a seal, on overrides and on client addresses at concrete inputs, and
-- runs of the code.
use secretproxy.Prelude.{
  inr, ℕ, ◌≤◌, ◌≡◌, refl, ◌≢◌, ◌↔◌, true, false, Option, some, [], ◌∷◌, ◌++◌, arith, All, Any, ok,
  err,
}
use secretproxy.Text.{
  Str, codes, str_eq, split, cut, has_prefix, ends_with, count_byte, contains_byte, trim_space,
  is_space,
}
use secretproxy.Text.Trimming.{IsPlain}
use secretproxy.Encoding.Hex.{from_hex}
use secretproxy.Net.{cut_last, split_host_port}
use secretproxy.Net.Addr.{v4, v6, masked}
use secretproxy.Net.Unescape.{path_unescape}
use secretproxy.Http
use secretproxy.Http.{get, values}
use secretproxy.Seal.{InjectHeader}
use secretproxy.Proxy.Dots.{max_decodes, refuse_dot_segments, dot_rounds, first_dot}
use secretproxy.Proxy.Dots.Meaning.{
  refuse_dot_segments_iff, accepted_stays_harmless, IsClean, HasNoDots, decoded,
}
use secretproxy.Proxy.Policy
use secretproxy.Proxy.Policy.{
  reject_non_standard_port, strip_port, validate_host, host_listed, validate_path, prefix_admits,
}
use secretproxy.Proxy.Policy.Ports.{reject_non_standard_port_iff, IsPort443}
use secretproxy.Proxy.Policy.Hosts.{validate_host_iff, IsAllowedHost}
use secretproxy.Proxy.Policy.Paths.{accepted_path_extends, ExtendsSegments}
use secretproxy.Proxy.Override.{
  Override, resolve_processor, override_one, default_format, default_header_name,
}
use secretproxy.Proxy.Override.Resolve.{resolve_processor_iff, IsChosen}
use secretproxy.Proxy.Ingress.{
  client_ip_from_request, ip_in_prefixes, cf_connecting_ip, cf_connecting_ip_absent,
  rightmost_entry_empty, unless_empty, x_forwarded_for,
}
use secretproxy.Proxy.Ingress.Source.{last_entry_decides, cloudflare_decides}
use secretproxy.Proxy.Ingress.Allowlist.{mapped_prefix_admits_none}
use secretproxy.Tests.Samples.{plain, engine, stripe, request, bare_request, parsers}

unfoldable code_of : Unit {0}
unfolding refuse_dot_segments dot_rounds first_dot path_unescape from_hex split str_eq has_prefix
    ends_with validate_path prefix_admits reject_non_standard_port split_host_port cut_last cut
    contains_byte count_byte strip_port validate_host host_listed resolve_processor override_one
    Policy.contains values get Http.canonical Http.title Http.title_byte Http.is_token_byte
code_of = tt

abbrev under_charges : Str
under_charges = codes "/v1/charges/a%2520b"

under_charges_accepted : refuse_dot_segments under_charges ≡ ok tt
unfolding code_of
under_charges_accepted = refl

-- A dot segment behind two escapes is refused in the third round.
hidden_dots_refused : refuse_dot_segments (codes "/v1/%25252e%25252e/x") ≡ ok tt → ⊥
unfolding code_of
hidden_dots_refused h = cc

accepted_stays_harmless_example : (t : Str) × (decoded 7 under_charges ≡ some t) × HasNoDots t
accepted_stays_harmless_example = accepted_stays_harmless under_charges 7 under_charges_accepted

refuse_dot_segments_iff_example :
    (refuse_dot_segments under_charges ≡ ok tt)
    ↔ ((k : ℕ) × (k ≤ max_decodes) × IsClean k under_charges)
refuse_dot_segments_iff_example = refuse_dot_segments_iff under_charges

path_accepted : validate_path engine under_charges stripe ≡ ok tt
unfolding code_of
path_accepted = refl

-- A prefix ends at the end of a segment.
longer_segment_refused : validate_path engine (codes "/v1/chargesx") stripe ≡ ok tt → ⊥
unfolding code_of
longer_segment_refused h = cc

accepted_path_extends_example : Any (ExtendsSegments under_charges) stripe.allowed_path_prefixes
accepted_path_extends_example =
    accepted_path_extends engine under_charges stripe (λ h. cc) path_accepted

validate_host_iff_example :
    (validate_host engine (codes "API.stripe.com:443") stripe ≡ ok tt)
    ↔ IsAllowedHost engine stripe (codes "API.stripe.com:443")
validate_host_iff_example = validate_host_iff engine (codes "API.stripe.com:443") stripe

reject_non_standard_port_iff_example :
    (reject_non_standard_port (codes "[::1]:443") ≡ ok tt)
    ↔ ((codes "[::1]:443" ≢ []) × IsPort443 (codes "[::1]:443"))
reject_non_standard_port_iff_example = reject_non_standard_port_iff (codes "[::1]:443")

bracketed_443_accepted : reject_non_standard_port (codes "[::1]:443") ≡ ok tt
unfolding code_of
bracketed_443_accepted = refl

port_8443_refused : reject_non_standard_port (codes "api.stripe.com:8443") ≡ ok tt → ⊥
unfolding code_of
port_8443_refused h = cc

abbrev open_format : InjectHeader
open_format = record {
  token = codes "sk_live_1";
  format = [];
  header_name = [];
  allowed_formats = codes "Token %s" ∷ [];
  allowed_header_names = [];
}

abbrev asks_token : Option Override
asks_token = some (record { format = codes "Token %s"; header_name = [] })

resolve_processor_iff_example :
    (resolve_processor (some open_format) asks_token ≡ ok (codes "Token %s", default_header_name))
    ↔ (IsChosen default_format [] (codes "Token %s" ∷ []) (codes "Token %s") (codes "Token %s")
        × IsChosen default_header_name [] [] [] default_header_name)
resolve_processor_iff_example =
    resolve_processor_iff open_format asks_token (codes "Token %s") default_header_name

token_resolved :
    resolve_processor (some open_format) asks_token ≡ ok (codes "Token %s", default_header_name)
unfolding code_of
token_resolved = refl

abc_IsPlain : All IsPlain (codes "abc")
unfolding is_space
abc_IsPlain = ground arith

forwarded_values :
    values request.header x_forwarded_for
    ≡ (codes "6.6.6.6" ∷ []) ++ (codes "6.6.6.6" ++ b',' ∷ codes " 10.0.0.7") ∷ []
unfolding code_of
forwarded_values = refl

last_entry_decides_example :
    client_ip_from_request parsers request.header request.remote_addr true false
    ≡ unless_empty parsers rightmost_entry_empty (trim_space (codes " 10.0.0.7"))
last_entry_decides_example =
    last_entry_decides parsers request.header request.remote_addr (codes "6.6.6.6" ∷ [])
      (codes "6.6.6.6" ++ b',' ∷ codes " 10.0.0.7") (codes " 10.0.0.7") forwarded_values
      (inr (codes "6.6.6.6", refl)) (ground arith)

neither_from_cloudflare :
    get request.header cf_connecting_ip ≡ get bare_request.header cf_connecting_ip
unfolding code_of
neither_from_cloudflare = refl

cloudflare_decides_example :
    (client_ip_from_request parsers request.header request.remote_addr true true
      ≡ client_ip_from_request parsers bare_request.header (codes "x") false true)
    × (trim_space (get request.header cf_connecting_ip) ≡ []
        → client_ip_from_request parsers request.header request.remote_addr true true
          ≡ err cf_connecting_ip_absent)
cloudflare_decides_example =
    cloudflare_decides parsers request.header bare_request.header request.remote_addr (codes "x")
      true false neither_from_cloudflare

slash_free : contains_byte b'/' (codes "10.0.0.7") ≡ false
unfolding contains_byte
slash_free = refl

private_parsed : parsers.parse_addr (codes "10.0.0.7") ≡ some (v4 0x0a000007)
unfolding str_eq
private_parsed = refl

-- ::ffff:10.0.0.0/104 and 10.0.0.7.
mapped_prefix_admits_none_example :
    ip_in_prefixes
      (v4 0x0a000007)
      (masked (record { addr = v6 0xffff0a000000 []; bits = 104 }) ∷ [])
    ≡ false
mapped_prefix_admits_none_example =
    mapped_prefix_admits_none 0xffff0a000000 104 (v4 0x0a000007) refl (omega arith) (omega arith)
