-- ===== src/Tests/Serving.antt =====
-- The theorems on egress, responses, routes and the client at concrete inputs, and runs of the code.
use secretproxy.Prelude.{
  ◌⊎◌, ◌≡◌, refl, sym, ◌∙◌, ◌≢◌, ◌↔◌, true, false, none, some, [], ◌∷◌, ◌++◌, arith, if◌then◌else◌,
  Any, ok, err,
}
use secretproxy.Text.{
  Str, codes, str_eq, is_space, lower_byte, lower_ascii, to_lower, trim_space, trim_left,
  trim_right, contains_byte,
}
use secretproxy.Encoding.Hex
use secretproxy.Encoding.Hex.{hex_digit, from_hex}
use secretproxy.Net.{split_host_port, cut_last}
use secretproxy.Net.Ip.{
  four, sixteen, is_private, is_loopback, is_link_local_unicast, is_link_local_multicast,
  is_unspecified, join_host_port,
}
use secretproxy.Seal.{PrivateKey}
use secretproxy.Seal.Keys.{parse_public_key, public_hex}
use secretproxy.Proxy.Policy.{contains}
use secretproxy.Proxy.Server.{Server, public_key_path}
use secretproxy.Proxy.Egress.{
  Resolver, is_private_or_local, refuse_private, dial_address, guarded_dial, self_loop, private_ip,
  auto_self_hostnames, extra_names,
}
use secretproxy.Proxy.Egress.Ranges.{is_private_or_local_iff, IsLocal}
use secretproxy.Proxy.Egress.Dial.{guarded_dial_iff, own_name_refused, IsChecked}
use secretproxy.Proxy.Respond.{
  header, bytes, failed, aborted, returned, log_forward_outcome, calls, new_status_writer,
}
use secretproxy.Proxy.Respond.Status.{informational_recorded, final_status}
use secretproxy.Proxy.Respond.Truncation.{truncation_logged, IsFailed}
use secretproxy.Proxy.Serve.{serve, public_key_text, handle_public_key}
use secretproxy.Tests.Samples.{plain, no_folding, world, server, request}

unfoldable code_of : Unit {0}
unfolding split_host_port cut_last contains_byte to_lower lower_ascii lower_byte contains str_eq
    is_private_or_local is_private is_loopback is_link_local_unicast is_link_local_multicast
    is_unspecified refuse_private dial_address guarded_dial join_host_port auto_self_hostnames
    extra_names trim_space trim_left trim_right is_space
code_of = tt

-- 203.0.113.9, and 10.1.2.3 in 16 bytes.
abbrev resolver : Resolver
resolver = record {
  lookup = λ host.
      if str_eq host (codes "api.stripe.com")
      then some (four 0xcb007109 ∷ [])
      else some (four 0xcb007109 ∷ sixteen 0xffff0a010203 ∷ []);
  string_of = λ ip. elim ip [ four n ↦ codes "203.0.113.9" | sixteen n ↦ codes "10.1.2.3" ];
}

abbrev guarded : Server
guarded = record server {
  self_hostnames = auto_self_hostnames none ([] ++ codes "proxy.example.com" ∷ []);
}

stripe_dialled :
    guarded_dial resolver guarded (codes "api.stripe.com:443") ≡ ok (codes "203.0.113.9:443")
unfolding code_of
stripe_dialled = refl

-- One private address among the answers is enough to refuse them all.
mixed_refused :
    guarded_dial resolver guarded (codes "rebind.example.com:443")
    ≡ err (private_ip (codes "rebind.example.com") (sixteen 0xffff0a010203))
unfolding code_of
mixed_refused = refl

is_private_or_local_iff_example :
    (is_private_or_local (sixteen 0xffff0a010203) ≡ true) ↔ IsLocal (sixteen 0xffff0a010203)
is_private_or_local_iff_example = is_private_or_local_iff (sixteen 0xffff0a010203) (omega arith)

guarded_dial_iff_example :
    (guarded_dial resolver guarded (codes "api.stripe.com:443") ≡ ok (codes "203.0.113.9:443")) ↔ (
      (host : Str) × (port : Str) × (split_host_port (codes "api.stripe.com:443")
        ≡ some (host, port))
      × (Any (λ a. a ≡ to_lower host) guarded.self_hostnames → ⊥)
      × IsChecked resolver guarded (codes "api.stripe.com:443") host port (codes "203.0.113.9:443"))
guarded_dial_iff_example =
    guarded_dial_iff resolver guarded (codes "api.stripe.com:443") (codes "203.0.113.9:443")

loop_split :
    split_host_port (codes "PROXY.example.com:443") ≡ some (codes "PROXY.example.com", codes "443")
unfolding code_of
loop_split = refl

loop_lower :
    (to_lower (codes "PROXY.example.com") ≡ codes "proxy.example.com")
    × (to_lower (codes "PROXY.example.com") ≡ to_lower (trim_space (codes "proxy.example.com")))
unfolding code_of
loop_lower = (refl, refl)

loop_name : to_lower (codes "PROXY.example.com") ≢ []
loop_name e = let h : codes "proxy.example.com" ≡ [] = sym loop_lower.0 ∙ e in cc

own_name_refused_example :
    guarded_dial resolver guarded (codes "PROXY.example.com:443")
    ≡ err (self_loop (codes "PROXY.example.com"))
own_name_refused_example =
    own_name_refused resolver guarded none [] [] (codes "proxy.example.com")
      (codes "PROXY.example.com:443") (codes "PROXY.example.com") (codes "443") refl loop_name
      loop_split loop_lower.1

informational_recorded_example :
    ((calls (header 103 ∷ header 200 ∷ []) new_status_writer).status ≡ 103)
    × (final_status (header 103 ∷ header 200 ∷ []) ≡ final_status (header 200 ∷ []))
informational_recorded_example = informational_recorded 103 (header 200 ∷ []) refl

truncation_logged_example :
    ((log_forward_outcome (codes "proxied") (bytes 5 ∷ failed 0 (codes "reset") ∷ []) aborted
        ≡ (codes "proxied" ++ codes "_truncated", true))
      × (Any IsFailed (bytes 5 ∷ failed 0 (codes "reset") ∷ []) ⊎ (aborted ≡ aborted)))
    ⊎ ((log_forward_outcome (codes "proxied") (bytes 5 ∷ failed 0 (codes "reset") ∷ []) aborted
          ≡ (codes "proxied", false))
        × (Any IsFailed (bytes 5 ∷ failed 0 (codes "reset") ∷ []) → ⊥)
        × (aborted ≡ returned))
truncation_logged_example =
    truncation_logged (codes "proxied") (bytes 5 ∷ failed 0 (codes "reset") ∷ []) aborted

abbrev digits : PrivateKey
digits = record { bytes = codes "0123456789abcdef0123456789ABCDEF" }

abbrev keyed : Server
keyed = record server { private_key = digits }

abbrev digits_text : Str
digits_text = codes "3031323334353637383961626364656630313233343536373839414243444546"

digits_served : serve world keyed public_key_path request ≡ public_key_text digits_text
unfolding serve handle_public_key public_hex Hex.encode hex_digit str_eq
digits_served = refl

digits_parsed : parse_public_key digits_text ≡ ok (world.lib.crypto.public_of keyed.private_key)
unfolding parse_public_key Hex.decode from_hex trim_space trim_left trim_right is_space
digits_parsed = refl
