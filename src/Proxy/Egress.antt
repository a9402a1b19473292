-- ===== src/Proxy/Egress.antt =====
-- proxy.go: guardedDial, isPrivateOrLocal, extraReservedV4 and AutoSelfHostnames. The dialler itself
-- is not modelled: the result is the address that is dialled.
pub mod Ranges
pub mod Dial
use secretproxy.Prelude.{
  ℕ, zero, suc, ◌+◌, ◌-◌, ◌*◌, ◌/◌, ◌%◌, ◌^◌, ◌≤◌, ◌<◌, code, String, ◌≡◌, refl, sym, ap, ◌∙◌,
  ◌≡⟨◌⟩◌, ◌∎, ◌≢◌, ◌↔◌, ◌⊎◌, inl, inr, Bool, true, false, not, ◌&&◌, ◌||◌, Option, none, some, List,
  [], ◌∷◌, ◌++◌, append-nil, append_assoc, arith, ltb, leb, ◌==◌, if◌then◌else◌, ==_iff, Bool-cases,
  Option-cases, &&-eq-true, length, get_elem?, is_empty, length-append, any, all, last_or, All, Any,
  All-append, last_or-append, Result, ok, err, Check, ◌>>=◌, ◌>>◌, refuse_if, wrap, >>=-eq-ok,
  Result-cases, Ensures, Ensures->>=, Ensures-ok,
}
use secretproxy.Text.{Str, codes, Unicode, to_lower, trim_space}
use secretproxy.Net.{split_host_port}
use secretproxy.Net.Ip.{
  Ip, to4, is_private, is_loopback, is_link_local_unicast, is_link_local_multicast, is_unspecified,
  join_host_port,
}
use secretproxy.Proxy.Policy.{contains}
use secretproxy.Proxy.Server.{Server}

-- A net.IPNet of IPv4, with the length of its mask.
record Net4 : Type 0 where
  pub base : ℕ
  pub bits : ℕ

abbrev extra_reserved_v4 : List Net4
extra_reserved_v4 =
    record { base = 0; bits = 8 }
    ∷ record { base = 0x64400000; bits = 10 }
    ∷ record { base = 0xf0000000; bits = 4 }
    ∷ []

-- IPNet.Contains.
abbrev in_net : Net4 → ℕ → Bool
in_net net n = net.base / 2 ^ (32 - net.bits) == n / 2 ^ (32 - net.bits)

abbrev is_reserved : Option ℕ → Bool
is_reserved none = false
is_reserved (some n) = any (λ net. in_net net n) extra_reserved_v4

unfoldable pub is_private_or_local : Ip → Bool
is_private_or_local ip =
    (is_private ip
      || is_loopback ip
      || is_link_local_unicast ip
      || is_link_local_multicast ip
      || is_unspecified ip)
    || is_reserved (to4 ip)

-- The resolver, where `none` is an error, and IP.String.
pub record Resolver : Type 0 where
  pub lookup : Str → Option (List Ip)
  pub string_of : Ip → Str

-- The first two wrap ErrEgressRefused.
pub data DialError : Type 0 where
  self_loop : (host : Str) → DialError
  private_ip : (host : Str) (ip : Ip) → DialError
  bad_address lookup_failed no_ips : DialError

unfoldable pub refuse_private : Str → List Ip → Check DialError
refuse_private host [] = ok tt
refuse_private host (ip ∷ ips) =
    refuse_if (is_private_or_local ip) (private_ip host ip) >> refuse_private host ips

abbrev pub resolved : Option (List Ip) → Result DialError (List Ip)
resolved none = err lookup_failed
resolved (some ips) = ok ips

-- `ips[0]`, behind the test of the length.
abbrev first_ip : List Ip → Result DialError Ip
first_ip [] = err no_ips
first_ip (ip ∷ ips) = ok ip

-- The address to dial, behind the guard against loops.
unfoldable pub dial_address : Resolver → Server → (addr host port : Str) → Result DialError Str
dial_address r s addr host port = if s.disable_egress_guard then ok addr else do
  ips ← resolved (r.lookup host)
  first ← first_ip ips
  refuse_private host ips
  ok (join_host_port (r.string_of first) port)

unfoldable pub guarded_dial : ⦃u : Unicode⦄ → Resolver → Server → Str → Result DialError Str
guarded_dial r s addr = elim (split_host_port addr) [
  | none ↦ err bad_address
  | some (host, port) ↦
      refuse_if (contains s.self_hostnames (to_lower host)) (self_loop host)
      >> dial_address r s addr host port
]

abbrev pub is_refusal : DialError → Bool
is_refusal (self_loop host) = true
is_refusal (private_ip host ip) = true
is_refusal _ = false

module _ ⦃u : Unicode⦄ where
  unfoldable pub extra_names : List Str → List Str
  extra_names [] = []
  extra_names (e ∷ extra) =
      let rest = extra_names extra in
      if is_empty (to_lower (trim_space e)) then rest else to_lower (trim_space e) ∷ rest

  abbrev pub own_name : Option Str → List Str
  own_name none = []
  own_name (some h) = if is_empty h then [] else to_lower h ∷ []

  -- The keys of the map; `none` is an error of os.Hostname.
  unfoldable pub auto_self_hostnames : Option Str → List Str → List Str
  auto_self_hostnames hostname extra =
      codes "localhost" ∷ codes "127.0.0.1" ∷ codes "::1" ∷ (own_name hostname ++ extra_names extra)
