-- ===== src/Net/Ip.antt =====
-- What proxy.go uses of package net's IP: an address of 4 or of 16 bytes, and its predicates.
use secretproxy.Prelude.{
  ℕ, ◌*◌, ◌/◌, ◌%◌, ◌^◌, Bool, ◌&&◌, ◌||◌, Option, none, some, ◌∷◌, ◌++◌, ◌==◌, if◌then◌else◌,
}
use secretproxy.Text.{Str, contains_byte}
use secretproxy.Net.Addr.{is_mapped}

-- The value of the bytes.
pub data Ip : Type 0 where
  four sixteen : ℕ → Ip

-- IP.To4: also an IPv4 address in 16 bytes.
abbrev pub to4 : Ip → Option ℕ
to4 (four n) = some n
to4 (sixteen n) = if is_mapped n then some (n % 2 ^ 32) else none

-- The byte with so many behind it.
abbrev byte : ℕ → ℕ → ℕ
byte behind n = n / 2 ^ (8 * behind) % 256

-- A predicate looks at the IPv4 address, if it is one, or at the 16 bytes.
abbrev by_family : (ℕ → Bool) → (ℕ → Bool) → Ip → Bool
by_family on4 on6 ip = elim (to4 ip) [
  | some n ↦ on4 n
  | none ↦ elim ip [ four n ↦ on4 n | sixteen n ↦ on6 n ]
]

unfoldable pub is_private : Ip → Bool
is_private ip =
    by_family
      (λ n.
        byte 3 n == 10
        || (byte 3 n == 172 && byte 2 n / 16 == 1)
        || (byte 3 n == 192 && byte 2 n == 168))
      (λ n. byte 15 n / 2 == 0x7e) ip

unfoldable pub is_loopback : Ip → Bool
is_loopback ip = by_family (λ n. byte 3 n == 127) (λ n. n == 1) ip

unfoldable pub is_link_local_unicast : Ip → Bool
is_link_local_unicast ip =
    by_family (λ n. byte 3 n == 169 && byte 2 n == 254)
      (λ n. byte 15 n == 0xfe && byte 14 n / 64 == 2) ip

unfoldable pub is_link_local_multicast : Ip → Bool
is_link_local_multicast ip =
    by_family (λ n. byte 3 n == 224 && byte 2 n == 0 && byte 1 n == 0)
      (λ n. byte 15 n == 0xff && byte 14 n % 16 == 2) ip

unfoldable pub is_unspecified : Ip → Bool
is_unspecified ip = by_family (λ n. n == 0) (λ n. n == 0) ip

-- net.JoinHostPort.
unfoldable pub join_host_port : Str → Str → Str
join_host_port host port =
    if contains_byte b':' host then b'[' ∷ (host ++ b']' ∷ b':' ∷ port) else host ++ b':' ∷ port
