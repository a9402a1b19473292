-- ===== src/Proxy/Ingress/Allowlist.antt =====
-- Which addresses the entries of the allowlist admit.
use secretproxy.Prelude.{
  ℕ, zero, suc, ◌+◌, ◌-◌, ◌*◌, ◌/◌, ◌^◌, ◌≤◌, ◌≡◌, refl, ◌↔◌, inl, inr, true, false, not, ◌&&◌,
  some, [], ◌∷◌, arith, if◌then◌else◌, ==_iff, Bool-cases,
}
use native.Mathlib.Nat.{
  div-div-eq-div-mul, mul-div_cancel, one-le-pow, pow-suc, add-suc, add-zero, mul_assoc,
}
use secretproxy.Text.{Str, contains_byte}
use secretproxy.Net.Addr
use secretproxy.Net.Addr.{
  Addr, v4, v6, Prefix, Parsers, is_mapped, unmap, prefix_from, masked, same_bits, mask_addr,
  contains_addr, is6, is_4_in_6,
}
use secretproxy.Proxy.Ingress.{parse_cidr_or_ip, ip_in_prefixes}

-- The address without its zone.
abbrev without_zone : Addr → Addr
without_zone (v4 n) = v4 n
without_zone (v6 n zone) = v6 n []

abbrev full_bits : Addr → ℕ
full_bits (v4 n) = 32
full_bits (v6 n zone) = 128

full_prefix_iff :
    (x y : Addr) → (Addr.contains (prefix_from x (full_bits x)) y ≡ true) ↔ (y ≡ without_zone x)
unfolding Addr.contains prefix_from
full_prefix_iff (v4 n) (v4 m) = ground arith
full_prefix_iff (v4 n) (v6 m z) = ground arith
full_prefix_iff (v6 n z) (v4 m) = ground arith
full_prefix_iff (v6 n z) (v6 m []) = ground arith
full_prefix_iff (v6 n z) (v6 m (c ∷ z')) = ground arith

bits_of_unmap : (a : Addr) → (if is6 a && not (is_4_in_6 a) then 128 else 32) ≡ full_bits (unmap a)
unfolding unmap
bits_of_unmap (v4 n) = refl
bits_of_unmap (v6 n z) = ground arith

in_one : (b : Addr) (p : Prefix) → ip_in_prefixes b (p ∷ []) ≡ Addr.contains p (unmap b)
unfolding ip_in_prefixes
in_one b p = ground arith

-- An entry without a slash admits exactly the address that it names: an IPv4 address also in its
-- IPv6 form, and never an address with a zone.
bare_entry_admits :
    (parsers : Parsers) (raw : Str) (a : Addr)
    → contains_byte b'/' raw ≡ false
    → parsers.parse_addr raw ≡ some a
    → (p : Prefix) × (parse_cidr_or_ip parsers raw ≡ some p)
      × ((b : Addr) → (ip_in_prefixes b (p ∷ []) ≡ true) ↔ (unmap b ≡ without_zone (unmap a)))
unfolding parse_cidr_or_ip
bare_entry_admits parsers raw a bare parsed = (
  prefix_from (unmap a) (full_bits (unmap a)),
  rw (bare, parsed, bits_of_unmap a),
  λ b. rw (in_one b _) (full_prefix_iff (unmap a) (unmap b)),
)

-- Masked, which the parser of entries applies, changes nothing that Contains answers.
contains-masked : (p : Prefix) (ip : Addr) → Addr.contains (masked p) ip ≡ Addr.contains p ip
unfolding Addr.contains masked
contains-masked p ip = by_family p.addr ip
  where
    by_family :
        (a ip : Addr) → contains_addr (mask_addr p.bits a) p.bits ip ≡ contains_addr a p.bits ip
    by_family (v4 n) (v4 m) =
        rw (mul-div_cancel (n / 2 ^ (32 - p.bits)) (one-le-pow (32 - p.bits) 2 (omega arith)))
    by_family (v6 n z) (v6 m z') =
        rw (mul-div_cancel (n / 2 ^ (128 - p.bits)) (one-le-pow (128 - p.bits) 2 (omega arith)))
    by_family (v4 n) (v6 m z) = refl
    by_family (v6 n z) (v4 m) = refl

pow_add : (a b : ℕ) → 2 ^ (a + b) ≡ 2 ^ a * 2 ^ b
pow_add a zero = rw add-zero (omega arith)
pow_add a (suc b) =
    rw (add-suc, pow-suc 2 (a + b), pow-suc 2 b, pow_add a b) (mul_assoc (2 ^ a) (2 ^ b) 2)

-- Numbers that agree on the bits above some place agree on the bits above any higher place.
same_higher_bits : (n m k j : ℕ) → n / 2 ^ k ≡ m / 2 ^ k → n / 2 ^ (k + j) ≡ m / 2 ^ (k + j)
same_higher_bits n m k j e =
    rw (
      pow_add k j,
      ← div-div-eq-div-mul n (2 ^ k) (2 ^ j),
      ← div-div-eq-div-mul m (2 ^ k) (2 ^ j),
      e,
    )

-- A prefix inside ::ffff:0:0/96, which the parser accepts as an entry, admits no address at all, since
-- the address is unmapped before it is compared and the entry is not.
pub mapped_prefix_admits_none :
    (n bits : ℕ) (a : Addr)
    → is_mapped n ≡ true
    → 96 ≤ bits
    → bits ≤ 128
    → ip_in_prefixes a (masked (record { addr = v6 n []; bits = bits }) ∷ []) ≡ false
mapped_prefix_admits_none n bits a mapped lo hi =
    rw (in_one a _, contains-masked (record { addr = v6 n []; bits = bits }) (unmap a))
      (by_family a)
  where
    apart : (m : ℕ) → is_mapped m ≡ false → same_bits 128 bits n m ≡ false
    apart m other = elim (Bool-cases (same_bits 128 bits n m)) [
      | inr e ↦ e
      | inl e ↦
          let low : n / 2 ^ (128 - bits) ≡ m / 2 ^ (128 - bits) = (==_iff _ _).0 e in
          let high = same_higher_bits n m (128 - bits) (bits - 96) low in
          let sum : 128 - bits + (bits - 96) ≡ 32 = omega arith in
          let same : n / 2 ^ 32 ≡ m / 2 ^ 32 = rw sum at high in absurd (ground arith)
    ]

    by_family :
        (a : Addr) → Addr.contains (record { addr = v6 n []; bits = bits }) (unmap a) ≡ false
    by_family (v4 m) = unfold Addr.contains unmap in refl
    by_family (v6 m z) = elim (Bool-cases (is_mapped m)) [
      | inl e ↦ unfold Addr.contains unmap in rw e
      | inr e ↦ let far = apart m e in unfold Addr.contains unmap in rw e (ground arith)
    ]
