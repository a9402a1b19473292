-- ===== src/Tests/Forwarding.antt =====
-- The theorems on the handler at the sample requests, and runs of the code.
use secretproxy.Prelude.{ℕ, ◌≡◌, refl, sym, ap, ◌∙◌, ◌≢◌, ◌↔◌, none, some, [], ◌∷◌, arith, ok}
use secretproxy.Text.{
  Str, codes, str_eq, split, cut, has_prefix, ends_with, strip_prefix, count_byte, contains_byte,
  trim_space, trim_left, trim_right, to_lower, is_space, lower_byte, lower_ascii,
}
use secretproxy.Text.Runes.{runes, runes_from, decode_rune}
use secretproxy.Encoding.Base64
use secretproxy.Encoding.Base64.{symbol, value, quanta}
use secretproxy.Encoding.Hex.{from_hex}
use secretproxy.Net.{cut_last, split_host_port}
use secretproxy.Net.Addr
use secretproxy.Net.Addr.{unmap, prefix_from, masked}
use secretproxy.Net.Unescape.{path_unescape}
use secretproxy.Http.{
  get, values, canonical, title, title_byte, is_token_byte, put, del, set, del_all,
}
use secretproxy.Seal.{Secret, InjectHeader}
use secretproxy.Seal.Regex.{match_string}
use secretproxy.Seal.Anchors.{begins_with_anchor, ends_with_anchor, require_anchored_pattern}
use secretproxy.Seal.Validate.{
  validate, validate_inject_header, scan_all, scan_each, scan_runes, is_control,
  refuse_header_control_chars,
}
use secretproxy.Seal.Validate.Rules.{IsValid}
use secretproxy.Seal.Envelope.{open_seal, open_plain, try_open, open_fallback, verify_bearer}
use secretproxy.Proxy.Dots.{refuse_dot_segments, dot_rounds, first_dot}
use secretproxy.Proxy.Policy
use secretproxy.Proxy.Policy.{
  reject_non_standard_port, strip_port, validate_host, host_listed, validate_path, prefix_admits,
  validate_method,
}
use secretproxy.Proxy.Override.{
  parse_sealed_header, resolve_processor, override_one, extract_bearer, default_format,
  default_header_name,
}
use secretproxy.Proxy.Ingress.{
  client_ip_from_request, parse_ip_maybe_port, trim_brackets, ip_in_prefixes, x_forwarded_for,
}
use secretproxy.Proxy.Director.{OutRequest, Injection, target_of, strip_headers, inject, director}
use secretproxy.Proxy.Forward.{
  proxied, passed_through, check_size, check_client, upstream_of, authorize, proxy_sealed,
  passthrough, forward_to, handle_forward,
}
use secretproxy.Proxy.Forward.Proxied.{handle_forward_iff, IsProxied}
use secretproxy.Proxy.Forward.Passthrough.{handle_forward-IsPassedThrough, IsPassedThrough}
use secretproxy.Proxy.Forward.Safety.{handle_forward-IsConfined, IsBehind, IsConfined, IsInjected}
use secretproxy.Tests.Samples.{plain, no_folding, world, server, charge_url, request, bare_request}

unfoldable pub code_of : Unit {0}
unfolding open_seal open_plain try_open open_fallback verify_bearer validate validate_inject_header
    scan_all scan_each refuse_header_control_chars scan_runes is_control runes runes_from
    decode_rune require_anchored_pattern begins_with_anchor ends_with_anchor match_string str_eq
    Base64.encode Base64.decode symbol value quanta refuse_dot_segments dot_rounds first_dot
    path_unescape from_hex split has_prefix ends_with strip_prefix validate_path prefix_admits
    reject_non_standard_port split_host_port cut_last cut contains_byte count_byte strip_port
    validate_host host_listed validate_method Policy.contains resolve_processor override_one values
    get canonical title title_byte is_token_byte put del set del_all trim_space trim_left trim_right
    to_lower is_space lower_byte lower_ascii unmap prefix_from masked Addr.contains
    parse_sealed_header extract_bearer client_ip_from_request parse_ip_maybe_port trim_brackets
    ip_in_prefixes target_of strip_headers inject director check_size check_client upstream_of
    authorize proxy_sealed passthrough forward_to handle_forward
code_of = tt

abbrev bearer_token : Injection
bearer_token = record {
  token = codes "sk_live_1";
  format = default_format;
  header_name = default_header_name;
}

abbrev sent : OutRequest
sent = director world.sprintf server (target_of charge_url) (some bearer_token) request.header

abbrev passed : OutRequest
passed = director world.sprintf server (target_of charge_url) none bare_request.header

request_proxied : handle_forward world server request ≡ ok (proxied sent)
unfolding code_of
request_proxied = refl

request_passed : handle_forward world server bare_request ≡ ok (passed_through passed)
unfolding code_of
request_passed = refl

-- The forged credential is gone, the sealed one is there.
credential_sent : sent.header (codes "Authorization") ≡ some (codes "Bearer sk_live_1" ∷ [])
unfolding code_of
credential_sent = refl

handle_forward-IsConfined_example :
    (secret : Secret) × IsBehind world server request secret
    × IsValid world.lib.engine secret
    × IsConfined world server request sent secret
    × ((ih : InjectHeader) × (secret.inject_header ≡ some ih)
        × IsInjected world server request sent ih)
handle_forward-IsConfined_example =
    handle_forward-IsConfined world server request sent request_proxied

handle_forward_iff_example :
    (handle_forward world server request ≡ ok (proxied sent)) ↔ IsProxied world server request sent
handle_forward_iff_example = handle_forward_iff world server request sent

handle_forward-IsPassedThrough_example : IsPassedThrough world server bare_request passed
handle_forward-IsPassedThrough_example =
    handle_forward-IsPassedThrough world server bare_request passed request_passed

default_name_lem : canonical default_header_name ≡ codes "Authorization"
unfolding canonical title title_byte is_token_byte
default_name_lem = refl

abbrev first_byte : Str → ℕ
first_byte [] = 0
first_byte (c ∷ s) = c

authorization-ne-x_forwarded_for :
    (j : Injection) → some bearer_token ≡ some j → canonical j.header_name ≢ x_forwarded_for
authorization-ne-x_forwarded_for j e h =
    let same : default_header_name ≡ j.header_name = cc in
    apart (ap first_byte (sym default_name_lem ∙ ap canonical same ∙ h)) refl refl
  where
    apart : {n m : ℕ} → n ≡ m → n ≡ 65 → m ≡ 88 → ⊥
    apart e h h' = omega arith
