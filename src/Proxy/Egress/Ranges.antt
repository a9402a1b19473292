-- ===== src/Proxy/Egress/Ranges.antt =====
-- The addresses that the egress guard refuses, as ranges.
use secretproxy.Prelude.{
  ℕ, ◌/◌, ◌%◌, ◌^◌, ◌≤◌, ◌<◌, ◌≡◌, ◌↔◌, ◌⊎◌, inl, inr, true, false, arith, Bool-cases,
}
use secretproxy.Net.Addr.{is_mapped}
use secretproxy.Net.Ip.{
  Ip, four, sixteen, is_private, is_loopback, is_link_local_unicast, is_link_local_multicast,
  is_unspecified,
}
use secretproxy.Proxy.Egress.{is_private_or_local}

abbrev pub IsWithin : ℕ → ℕ → ℕ → Type 0
IsWithin lo hi n = (lo ≤ n) × (n ≤ hi)

-- 0.0.0.0/8, 10.0.0.0/8, 100.64.0.0/10, 127.0.0.0/8, 169.254.0.0/16, 172.16.0.0/12, 192.168.0.0/16,
-- 224.0.0.0/24 and 240.0.0.0/4.
abbrev IsLocal4 : ℕ → Type 0
IsLocal4 n =
    IsWithin 0 0x00ffffff n
    ⊎ (IsWithin 0x0a000000 0x0affffff n
        ⊎ (IsWithin 0x64400000 0x647fffff n
            ⊎ (IsWithin 0x7f000000 0x7fffffff n
                ⊎ (IsWithin 0xa9fe0000 0xa9feffff n
                    ⊎ (IsWithin 0xac100000 0xac1fffff n
                        ⊎ (IsWithin 0xc0a80000 0xc0a8ffff n
                            ⊎ (IsWithin 0xe0000000 0xe00000ff n
                                ⊎ IsWithin 0xf0000000 0xffffffff n)))))))

-- ::, ::1, fc00::/7, fe80::/10, and the multicast addresses of link-local scope, whatever their flags.
abbrev IsLocal6 : ℕ → Type 0
IsLocal6 n =
    (n ≤ 1)
    ⊎ (IsWithin 0xfc000000000000000000000000000000 0xfdffffffffffffffffffffffffffffff n
        ⊎ (IsWithin 0xfe800000000000000000000000000000 0xfebfffffffffffffffffffffffffffff n
            ⊎ (IsWithin 0xff000000000000000000000000000000 0xffffffffffffffffffffffffffffffff n
                × (n / 2 ^ 112 % 16 ≡ 2))))

-- The address as a number of 32 or 128 bits, an IPv4 address in 16 bytes by its last four.
abbrev pub IsLocal : Ip → Type 0
IsLocal (four n) = IsLocal4 n
IsLocal (sixteen n) =
    ((is_mapped n ≡ true) × IsLocal4 (n % 2 ^ 32)) ⊎ ((is_mapped n ≡ false) × IsLocal6 n)

abbrev IsSized : Ip → Type 0
IsSized (four n) = n < 2 ^ 32
IsSized (sixteen n) = n < 2 ^ 128

four_iff : (n : ℕ) → n < 2 ^ 32 → (is_private_or_local (four n) ≡ true) ↔ IsLocal4 n
unfolding is_private_or_local is_private is_loopback is_link_local_unicast is_link_local_multicast
    is_unspecified
four_iff n h = (λ e. ground arith, λ e. ground arith)

mapped-four :
    (n : ℕ)
    → is_mapped n ≡ true
    → is_private_or_local (sixteen n) ≡ is_private_or_local (four (n % 2 ^ 32))
unfolding is_private_or_local is_private is_loopback is_link_local_unicast is_link_local_multicast
    is_unspecified
mapped-four n h = ground arith

not_mapped_iff :
    (n : ℕ)
    → n < 2 ^ 128
    → is_mapped n ≡ false
    → (is_private_or_local (sixteen n) ≡ true) ↔ IsLocal6 n
unfolding is_private_or_local is_private is_loopback is_link_local_unicast is_link_local_multicast
    is_unspecified
not_mapped_iff n size other = rw other (λ e. ground arith, λ e. ground arith)

-- An address is refused exactly if it lies in one of these ranges: for IPv4, in 4 bytes or in 16, this
-- network, the private networks, carrier-grade NAT, loopback, link-local, local multicast and the
-- reserved block; for IPv6 the unspecified address, loopback, the unique local, link-local and
-- link-local multicast addresses.
pub is_private_or_local_iff : (ip : Ip) → IsSized ip → (is_private_or_local ip ≡ true) ↔ IsLocal ip
is_private_or_local_iff (four n) h = four_iff n h
is_private_or_local_iff (sixteen n) h = elim (Bool-cases (is_mapped n)) [
  | inl mapped ↦
      let (to, from) = four_iff (n % 2 ^ 32) (omega arith) in
      rw (mapped-four n mapped)
        (λ e. inl (mapped, to e), λ local. elim local [ inl (_, l) ↦ from l | inr (other, _) ↦ cc ])
  | inr other ↦
      let (to, from) = not_mapped_iff n h other in
      (λ e. inr (other, to e), λ local. elim local [ inl (mapped, _) ↦ cc | inr (_, l) ↦ from l ])
]
