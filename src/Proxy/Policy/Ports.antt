-- ===== src/Proxy/Policy/Ports.antt =====
-- Which hosts rejectNonStandardPort accepts.
use secretproxy.Prelude.{
  ◌≤◌, ◌≡◌, refl, ◌≢◌, ◌↔◌, ◌⊎◌, inl, inr, false, none, some, [], ◌∷◌, arith, Option-cases, ok,
}
use secretproxy.Text.{Str, contains_byte, count_byte}
use secretproxy.Text.Laws.{str_eq_iff}
use secretproxy.Net.{split_host_port}
use secretproxy.Proxy.Policy.{upstream_port, reject_non_standard_port}

-- The host has no port, or the port 443.
abbrev pub IsPort443 : Str → Type 0
IsPort443 host =
    ((split_host_port host ≡ none)
      × (contains_byte b'[' host ≡ false)
      × (contains_byte b']' host ≡ false)
      × (count_byte b':' host ≤ 1))
    ⊎ ((h : Str) × (split_host_port host ≡ some (h, upstream_port)))

-- A host passes exactly if it is not empty and either has no port, no bracket and at most one colon,
-- or splits into a host and the port 443.
pub reject_non_standard_port_iff :
    (host : Str) → (reject_non_standard_port host ≡ ok tt) ↔ ((host ≢ []) × IsPort443 host)
unfolding reject_non_standard_port
reject_non_standard_port_iff [] = (λ h. cc, λ h. absurd (h.0 refl))
reject_non_standard_port_iff (c ∷ s) = elim (Option-cases (split_host_port (c ∷ s))) [
  | inl unsplit ↦ (
    λ h. (cc, inl (unsplit, ground arith, ground arith, ground arith)),
    λ h. elim (h.1) [ inl (_, open_free, close_free, few) ↦ ground arith | inr (h', e) ↦ cc ],
  )
  | inr ((h', port), e) ↦ (
    λ h.
        let same : port ≡ upstream_port = (str_eq_iff port upstream_port).0 (ground arith) in
        (cc, inr (h', rw same at e)),
    λ h. elim (h.1) [
      | inl (e', _, _, _) ↦ cc
      | inr (h'', e') ↦
          let same : port ≡ upstream_port = ground arith in
          ground (arith, str_eq_iff port upstream_port)
    ],
  )
]
