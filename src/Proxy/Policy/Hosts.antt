-- ===== src/Proxy/Policy/Hosts.antt =====
-- What validateHost admits.
use secretproxy.Prelude.{
  ◌≡◌, refl, ◌≢◌, ◌↔◌, ◌⊎◌, inl, inr, true, some, List, [], ◌∷◌, ◌++◌, arith, Bool-cases, Any, ok,
}
use secretproxy.Text.{Str, str_eq, Unicode, to_lower}
use secretproxy.Text.Laws.{str_eq_iff}
use secretproxy.Seal.{Secret}
use secretproxy.Seal.Regex.{Engine, match_string}
use secretproxy.Proxy.Policy.{host_listed, validate_host, fold_case}

module _ ⦃u : Unicode⦄ where
  host_listed_iff :
      (hosts : List Str) (h : Str) → (host_listed hosts h ≡ true) ↔ Any (λ a. to_lower a ≡ h) hosts
  unfolding host_listed
  host_listed_iff [] h = (λ e. cc, λ e. absurd e)
  host_listed_iff (a ∷ hosts) h =
      let (to, from) = host_listed_iff hosts h in
      let (eq_to, eq_from) = str_eq_iff (to_lower a) h in
      elim (Bool-cases (str_eq (to_lower a) h)) [
        | inl same ↦ (λ _. inl (eq_to same), λ _. rw same)
        | inr other ↦ (
          λ e. inr (to (rw other at e)),
          λ e. elim e [ inl same ↦ absurd (ground arith) | inr later ↦ rw other (from later) ],
        )
      ]

  -- The host as it was sent, port included, equals an allowed host but for case; or, where there is
  -- no list, the engine finds the pattern, made case-insensitive, in the host.
  abbrev pub IsAllowedHost : Engine → Secret → Str → Type 0
  IsAllowedHost e secret host =
      ((secret.allowed_hosts ≢ []) × Any (λ a. to_lower a ≡ to_lower host) secret.allowed_hosts)
      ⊎ ((secret.allowed_hosts ≡ [])
          × (secret.allowed_host_pattern ≢ [])
          × (match_string e (fold_case ++ secret.allowed_host_pattern) host ≡ some true))

  admits_iff :
      (e : Engine) (hosts : List Str) (pattern host : Str) (s : Secret)
      → s.allowed_hosts ≡ hosts
      → s.allowed_host_pattern ≡ pattern
      → (validate_host e host s ≡ ok tt) ↔ IsAllowedHost e s host
  unfolding validate_host
  admits_iff e [] [] host s eh ep = (λ h. absurd (ground arith), λ h. absurd (ground arith))
  admits_iff e [] (c ∷ pattern) host s eh ep = ground arith
  admits_iff e (a ∷ hosts) pattern host s eh ep =
      let (to, from) = host_listed_iff s.allowed_hosts (to_lower host) in
      (
        λ h. inl (ground arith, to (ground arith)),
        λ h. elim h [
          | inl (_, listed) ↦ let found = from listed in ground arith
          | inr (empty, _, _) ↦ absurd (ground arith)
        ],
      )

  -- A host is accepted exactly if it is on the list up to case, or, where there is no list, there is a
  -- pattern and the host matches it without regard to case.
  pub validate_host_iff :
      (e : Engine) (host : Str) (s : Secret)
      → (validate_host e host s ≡ ok tt) ↔ IsAllowedHost e s host
  validate_host_iff e host s = admits_iff e s.allowed_hosts s.allowed_host_pattern host s refl refl
