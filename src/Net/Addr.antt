-- ===== src/Net/Addr.antt =====
-- What the program uses of net/netip: addresses and prefixes. Their parsers are a parameter.
use secretproxy.Prelude.{
  ℕ, ◌-◌, ◌*◌, ◌/◌, ◌%◌, ◌^◌, Bool, true, false, ◌&&◌, Option, [], ◌==◌, if◌then◌else◌, is_empty,
}
use secretproxy.Text.{Str}

-- The value of the address as a number of 32 or 128 bits; a zone of an IPv6 address.
pub data Addr : Type 0 where
  v4 : ℕ → Addr
  v6 : ℕ → (zone : Str) → Addr

pub record Prefix : Type 0 where
  pub addr : Addr
  pub bits : ℕ

pub record Parsers : Type 0 where
  pub parse_addr : Str → Option Addr
  pub parse_prefix : Str → Option Prefix

-- The value lies in ::ffff:0:0/96.
abbrev pub is_mapped : ℕ → Bool
is_mapped n = n / 2 ^ 32 == 0xFFFF

abbrev pub is6 : Addr → Bool
is6 (v4 n) = false
is6 (v6 n zone) = true

abbrev pub is_4_in_6 : Addr → Bool
is_4_in_6 (v4 n) = false
is_4_in_6 (v6 n zone) = is_mapped n

-- Addr.Unmap.
unfoldable pub unmap : Addr → Addr
unmap (v4 n) = v4 n
unmap (v6 n zone) = if is_mapped n then v4 (n % 2 ^ 32) else v6 n zone

-- netip.PrefixFrom: a prefix has no zone.
unfoldable pub prefix_from : Addr → ℕ → Prefix
prefix_from (v4 n) bits = record { addr = v4 n; bits = bits }
prefix_from (v6 n zone) bits = record { addr = v6 n []; bits = bits }

-- The leading bits of a number of `width` bits, the others zero.
abbrev mask : (width bits : ℕ) → ℕ → ℕ
mask width bits n = n / 2 ^ (width - bits) * 2 ^ (width - bits)

abbrev pub mask_addr : ℕ → Addr → Addr
mask_addr bits (v4 n) = v4 (mask 32 bits n)
mask_addr bits (v6 n zone) = v6 (mask 128 bits n) zone

unfoldable pub masked : Prefix → Prefix
masked p = record p { addr = mask_addr p.bits p.addr }

abbrev pub same_bits : (width bits : ℕ) → ℕ → ℕ → Bool
same_bits width bits n m = n / 2 ^ (width - bits) == m / 2 ^ (width - bits)

-- Prefix.Contains: an address with a zone, or of the other family, is in no prefix.
abbrev pub contains_addr : Addr → ℕ → Addr → Bool
contains_addr (v4 n) bits (v4 m) = same_bits 32 bits n m
contains_addr (v6 n zone) bits (v6 m zone') = is_empty zone' && same_bits 128 bits n m
contains_addr _ bits _ = false

unfoldable pub contains : Prefix → Addr → Bool
contains p ip = contains_addr p.addr p.bits ip
