-- ===== src/Proxy/Egress/Dial.antt =====
-- What the egress guard lets the proxy dial.
use secretproxy.Prelude.{
  ◌≡◌, refl, ◌≢◌, ◌↔◌, ◌⊎◌, inl, inr, true, false, Option, none, some, List, [], ◌∷◌, ◌++◌, arith,
  Bool-cases, Option-cases, is_empty, All, Any, ok, err, >>=-eq-ok,
}
use secretproxy.Text.{Str, Unicode, to_lower, trim_space}
use secretproxy.Net.{split_host_port}
use secretproxy.Net.Ip.{Ip, join_host_port}
use secretproxy.Proxy.Policy.{contains}
use secretproxy.Proxy.Policy.Paths.{contains_iff}
use secretproxy.Proxy.Server.{Server}
use secretproxy.Proxy.Egress.{
  is_private_or_local, Resolver, self_loop, refuse_private, dial_address, guarded_dial, extra_names,
  auto_self_hostnames, own_name,
}

abbrev IsPublic : Ip → Type 0
IsPublic ip = is_private_or_local ip ≡ false

refuse_private_iff :
    (host : Str) (ips : List Ip) → (refuse_private host ips ≡ ok tt) ↔ All IsPublic ips
unfolding refuse_private
refuse_private_iff host [] = (λ h. tt, λ h. refl)
refuse_private_iff host (ip ∷ ips) = elim (Bool-cases (is_private_or_local ip)) [
  | inl local ↦ (λ h. absurd (ground arith), λ h. absurd (ground arith))
  | inr public ↦
      let (to, from) = refuse_private_iff host ips in
      (λ h. (public, to (ground arith)), λ h. let rest = from h.1 in ground arith)
]

-- The address as it was given, with the guard off; with it on, the first address of the host, where
-- every address of the host is public.
abbrev pub IsChecked : Resolver → Server → (addr host port dialled : Str) → Type 0
IsChecked r s addr host port dialled =
    ((s.disable_egress_guard ≡ true) × (dialled ≡ addr))
    ⊎ ((s.disable_egress_guard ≡ false)
        × ((first : Ip) × (ips : List Ip) × (r.lookup host ≡ some (first ∷ ips))
            × All IsPublic (first ∷ ips)
            × (dialled ≡ join_host_port (r.string_of first) port)))

nil_of_is_empty : {s : Str} → is_empty s ≡ true → s ≡ []
nil_of_is_empty {s = []} h = refl
nil_of_is_empty {s = c ∷ s} h = cc

Any-append_right {ℓ} : {A : Type ℓ} (P : A → Type 0) (xs ys : List A) → Any P ys → Any P (xs ++ ys)
Any-append_right P [] ys h = h
Any-append_right P (x ∷ xs) ys h = inr (Any-append_right P xs ys h)

from_lookup :
    (r : Resolver) (s : Server) (addr host port dialled : Str) (found : Option (List Ip))
    → s.disable_egress_guard ≡ false
    → r.lookup host ≡ found
    → (dial_address r s addr host port ≡ ok dialled) ↔ IsChecked r s addr host port dialled
unfolding dial_address
from_lookup r s addr host port dialled none on e =
    (λ h. absurd (ground arith), λ h. absurd (ground arith))
from_lookup r s addr host port dialled (some []) on e = (
  λ h. absurd (ground arith),
  λ h. elim h [ inl (off, _) ↦ cc | inr (_, (_, _, found, _, _)) ↦ cc ],
)
from_lookup r s addr host port dialled (some (first ∷ ips)) on e =
    let (to, from) = refuse_private_iff host (first ∷ ips) in
    (
      λ h.
          let (_, passed, last) =
            >>=-eq-ok (refuse_private host (first ∷ ips)) _ (rw (on, e) at h) in
          inr (on, (first, ips, e, to passed, cc)),
      λ h. elim h [
        | inl (off, _) ↦ cc
        | inr (_, (other, others, found, public, same)) ↦
            let same_first : first ≡ other = cc in
            let same_rest : ips ≡ others = cc in
            let passed = from (rw (same_first, same_rest) public) in rw (on, e, passed) (cc same)
      ],
    )

dial_address_iff :
    (r : Resolver) (s : Server) (addr host port dialled : Str)
    → (dial_address r s addr host port ≡ ok dialled) ↔ IsChecked r s addr host port dialled
unfolding dial_address
dial_address_iff r s addr host port dialled = elim (Bool-cases s.disable_egress_guard) [
  | inl off ↦ ground arith
  | inr on ↦ from_lookup r s addr host port dialled (r.lookup host) on refl
]

module _ ⦃u : Unicode⦄ where
  extra_names_hold :
      (before after : List Str) (raw : Str)
      → to_lower (trim_space raw) ≢ []
      → Any (λ a. a ≡ to_lower (trim_space raw)) (extra_names (before ++ raw ∷ after))
  unfolding extra_names
  extra_names_hold [] after raw n = elim (Bool-cases (is_empty (to_lower (trim_space raw)))) [
    | inl empty ↦ absurd (n (nil_of_is_empty empty))
    | inr full ↦ rw full (inl refl)
  ]
  extra_names_hold (e ∷ before) after raw n =
      let later = extra_names_hold before after raw n in
      elim (Bool-cases (is_empty (to_lower (trim_space e)))) [
        | inl empty ↦ rw empty later
        | inr full ↦ rw full (inr later)
      ]

  names_hold :
      (hostname : Option Str) (before after : List Str) (raw : Str)
      → to_lower (trim_space raw) ≢ []
      → Any
          (λ a. a ≡ to_lower (trim_space raw))
          (auto_self_hostnames hostname (before ++ raw ∷ after))
  unfolding auto_self_hostnames
  names_hold hostname before after raw n =
      inr
        (inr (inr (Any-append_right _ (own_name hostname) _ (extra_names_hold before after raw n))))

  -- An address is dialled exactly if it splits into a host that is not, up to case, a name of the
  -- proxy's own and a port, and either the guard is off, and the address itself is dialled, or the host
  -- resolves to public addresses alone, and the first of these is dialled, not looked up again.
  pub guarded_dial_iff :
      (r : Resolver) (s : Server) (addr dialled : Str)
      → (guarded_dial r s addr ≡ ok dialled) ↔ (
          (host : Str) × (port : Str) × (split_host_port addr ≡ some (host, port))
          × (Any (λ a. a ≡ to_lower host) s.self_hostnames → ⊥)
          × IsChecked r s addr host port dialled)
  unfolding guarded_dial
  guarded_dial_iff r s addr dialled = elim (Option-cases (split_host_port addr)) [
    | inl bad ↦ (λ h. absurd (ground arith), λ (host, port, e, _, _). absurd (ground arith))
    | inr ((host, port), e) ↦
        let (named, listed) = contains_iff s.self_hostnames (to_lower host) in
        let (checked, dials) = dial_address_iff r s addr host port dialled in
        elim (Bool-cases (contains s.self_hostnames (to_lower host))) [
          | inl own ↦ (
            λ h. absurd (ground arith),
            λ (host', port', e', free, _).
                let same : host' ≡ host = cc in absurd (free (rw same (named own))),
          )
          | inr other ↦ (
            λ h. (host, port, e, (λ own. cc (listed own)), checked (ground arith)),
            λ (host', port', e', _, c).
                let same_host : host ≡ host' = cc in
                let same_port : port ≡ port' = cc in
                let done = dials (rw (same_host, same_port) c) in ground arith,
          )
        ]
  ]

  -- AutoSelfHostnames with a name that was configured: whatever the port and the letters' case in
  -- which the name is dialled, the dial is refused as a loop.
  pub own_name_refused :
      (r : Resolver) (s : Server) (hostname : Option Str) (before after : List Str)
      (raw addr host port : Str)
      → s.self_hostnames ≡ auto_self_hostnames hostname (before ++ raw ∷ after)
      → to_lower host ≢ []
      → split_host_port addr ≡ some (host, port)
      → to_lower host ≡ to_lower (trim_space raw)
      → guarded_dial r s addr ≡ err (self_loop host)
  unfolding guarded_dial
  own_name_refused r s hostname before after raw addr host port names n e same =
      let listed = names_hold hostname before after raw (rw (← same) n) in
      let own = (contains_iff s.self_hostnames (to_lower host)).1 (rw (names, same) listed) in
      ground arith
