-- ===== src/Seal/Validate/Rules.antt =====
-- What Validate accepts, as rules on the secret.
use secretproxy.Prelude.{
  ◌+◌, ◌≡◌, refl, ◌≢◌, ◌↔◌, ◌⊎◌, inl, inr, Bool, true, false, not, ◌&&◌, Option, none, some, List,
  [], ◌∷◌, arith, ◌==◌, Option-cases, is_empty, All, Result, ok, err, refuse_if, wrap,
}
use secretproxy.Text.{Str}
use secretproxy.Seal.{Secret, InjectHeader, BearerAuth, NoAuth, is_some}
use secretproxy.Seal.Regex.{Regexp, Engine}
use secretproxy.Seal.Anchors.{begins_with_anchor, ends_with_anchor, require_anchored_pattern}
use secretproxy.Seal.Validate.{
  allowed_format, allowed_header_name, scan_each, scan_all, MapOrder, thf, tfh, htf, hft, fth, fht,
  in_order, validate_inject_header, count_tag, lacks_digest, validate,
}
use secretproxy.Seal.Validate.Scan.{IsHeaderSafe, scan_each_iff, scan_all_iff}

-- An empty pattern, or one that the parser accepts and that has anchors at both ends.
abbrev IsAnchored : Engine → Str → Type 0
IsAnchored e pattern =
    (pattern ≡ [])
    ⊎ ((re : Regexp) × (e.parse pattern ≡ some re)
        × (begins_with_anchor re ≡ true)
        × (ends_with_anchor re ≡ true))

-- Exactly one way to authorise the client.
abbrev HasOneAuth : Option BearerAuth → Option NoAuth → Type 0
HasOneAuth (some b) none = b.digest ≢ []
HasOneAuth none (some n) = Unit
HasOneAuth _ _ = ⊥

-- The one processor, with a token, and nothing in it that a header may not hold.
abbrev pub HasProcessor : Option InjectHeader → Type 0
HasProcessor none = ⊥
HasProcessor (some ih) =
    (ih.token ≢ [])
    × IsHeaderSafe ih.token
    × IsHeaderSafe ih.format
    × IsHeaderSafe ih.header_name
    × All IsHeaderSafe ih.allowed_formats
    × All IsHeaderSafe ih.allowed_header_names

pub record IsValid (e : Engine) (s : Secret) : Type 0 where
  pub one_auth : HasOneAuth s.bearer_auth s.no_auth
  pub processor : HasProcessor s.inject_header
  pub hosts :
      ((s.allowed_host_pattern ≡ []) × (s.allowed_hosts ≢ []))
      ⊎ ((s.allowed_host_pattern ≢ []) × (s.allowed_hosts ≡ []))
  pub host_anchored : IsAnchored e s.allowed_host_pattern
  pub paths : (s.allowed_path_pattern ≡ []) ⊎ (s.allowed_path_prefixes ≡ [])
  pub path_anchored : IsAnchored e s.allowed_path_pattern

require_anchored_pattern_iff :
    (e : Engine) (pattern : Str)
    → (require_anchored_pattern e pattern ≡ ok tt) ↔ IsAnchored e pattern
unfolding require_anchored_pattern
require_anchored_pattern_iff e [] = (λ _. inl refl, λ _. refl)
require_anchored_pattern_iff e (c ∷ pattern) = elim (Option-cases (e.parse (c ∷ pattern))) [
  | inl refused ↦ ground arith
  | inr (re, parsed) ↦ (λ h. inr (re, parsed, ground arith, ground arith), λ h. ground arith)
]

wrap_iff {ℓ κ} :
    {E : Type ℓ} {F : Type κ} (f : E → F) (r : Result E (Unit {0}))
    → (wrap f r ≡ ok tt) ↔ (r ≡ ok tt)
wrap_iff f (ok tt) = (λ _. refl, λ _. refl)
wrap_iff f (err e) = (λ h. cc, λ h. cc)

refuse_if_iff {ℓ} : {E : Type ℓ} (b : Bool) (e : E) → (refuse_if b e ≡ ok tt) ↔ (b ≡ false)
refuse_if_iff true e = (λ h. cc, λ h. cc)
refuse_if_iff false e = (λ _. refl, λ _. refl)

in_order-IsHeaderSafe :
    (o : MapOrder) (ih : InjectHeader)
    → All (λ v. IsHeaderSafe v.1) (in_order o ih)
      ↔ (IsHeaderSafe ih.token × IsHeaderSafe ih.format × IsHeaderSafe ih.header_name)
in_order-IsHeaderSafe thf ih = (λ (a, (b, (c, _))). (a, c, b), λ (a, b, c). (a, (c, (b, tt))))
in_order-IsHeaderSafe tfh ih = (λ (a, (b, (c, _))). (a, b, c), λ (a, b, c). (a, (b, (c, tt))))
in_order-IsHeaderSafe htf ih = (λ (a, (b, (c, _))). (b, c, a), λ (a, b, c). (c, (a, (b, tt))))
in_order-IsHeaderSafe hft ih = (λ (a, (b, (c, _))). (c, b, a), λ (a, b, c). (c, (b, (a, tt))))
in_order-IsHeaderSafe fth ih = (λ (a, (b, (c, _))). (b, a, c), λ (a, b, c). (b, (a, (c, tt))))
in_order-IsHeaderSafe fht ih = (λ (a, (b, (c, _))). (c, a, b), λ (a, b, c). (b, (c, (a, tt))))

is_empty_iff : (s : Str) → (is_empty s ≡ false) ↔ (s ≢ [])
is_empty_iff [] = (λ h. cc, λ h. absurd (h refl))
is_empty_iff (c ∷ s) = (λ _. cc, λ _. refl)

validate_inject_header_iff :
    (o : MapOrder) (ih : InjectHeader)
    → (validate_inject_header o (some ih) ≡ ok tt) ↔ HasProcessor (some ih)
unfolding validate_inject_header
validate_inject_header_iff o ih =
    let (all_to, all_from) = scan_all_iff (in_order o ih) in
    let (order_to, order_from) = in_order-IsHeaderSafe o ih in
    let (formats_to, formats_from) = scan_each_iff allowed_format 0 ih.allowed_formats in
    let (names_to, names_from) = scan_each_iff allowed_header_name 0 ih.allowed_header_names in
    let (token_to, token_from) = is_empty_iff ih.token in
    let steps =
      λ (h : (is_empty ih.token ≡ false)
          × (scan_all (in_order o ih) ≡ ok tt)
          × (scan_each allowed_format 0 ih.allowed_formats ≡ ok tt)
          × (scan_each allowed_header_name 0 ih.allowed_header_names ≡ ok tt)).
        let (a, b, c) = order_to (all_to h.1) in
        let t : HasProcessor (some ih) = (token_to h.0, a, b, c, formats_to h.2, names_to h.3) in
        t in
    (
      λ h. steps (ground arith, ground arith, ground arith, ground arith),
      λ (n, t, f, h, fs, hs).
          rw (token_from n, all_from (order_from (t, f, h)), formats_from fs, names_from hs),
    )

-- The tests on tags and lists, before and between the checks of patterns.
one_auth_iff :
    (b : Option BearerAuth) (n : Option NoAuth)
    → ((not (count_tag (is_some b) + count_tag (is_some n) == 1) ≡ false)
        × (lacks_digest b ≡ false))
      ↔ HasOneAuth b n
one_auth_iff (some b) none =
    (λ h. (is_empty_iff b.digest).0 h.1, λ h. (refl, (is_empty_iff b.digest).1 h))
one_auth_iff none (some n) = (λ h. tt, λ h. (refl, refl))
one_auth_iff (some b) (some n) = (λ h. cc (h.0), λ h. absurd h)
one_auth_iff none none = (λ h. cc (h.0), λ h. absurd h)

hosts_iff :
    (p : Str) (hs : List Str)
    → (((not (is_empty p) && not (is_empty hs)) ≡ false) × ((is_empty p && is_empty hs) ≡ false))
      ↔ (((p ≡ []) × (hs ≢ [])) ⊎ ((p ≢ []) × (hs ≡ [])))
hosts_iff [] [] = ground arith
hosts_iff [] (h ∷ hs) = ground arith
hosts_iff (c ∷ p) [] = ground arith
hosts_iff (c ∷ p) (h ∷ hs) = ground arith

paths_iff :
    (p : Str) (ps : List Str)
    → ((not (is_empty p) && not (is_empty ps)) ≡ false) ↔ ((p ≡ []) ⊎ (ps ≡ []))
paths_iff [] ps = ground arith
paths_iff (c ∷ p) [] = ground arith
paths_iff (c ∷ p) (q ∷ ps) = ground arith

processor_iff :
    (o : MapOrder) (ih : Option InjectHeader)
    → ((not (count_tag (is_some ih) == 1) ≡ false) × (validate_inject_header o ih ≡ ok tt))
      ↔ HasProcessor ih
processor_iff o none = (λ h. cc (h.0), λ h. absurd h)
processor_iff o (some ih) =
    let (to, from) = validate_inject_header_iff o ih in (λ h. to h.1, λ h. (refl, from h))

abbrev Passes : Engine → MapOrder → Secret → Type 0
Passes e o s =
    (not (count_tag (is_some s.bearer_auth) + count_tag (is_some s.no_auth) == 1) ≡ false)
    × (not (count_tag (is_some s.inject_header) == 1) ≡ false)
    × ((not (is_empty s.allowed_host_pattern) && not (is_empty s.allowed_hosts)) ≡ false)
    × ((is_empty s.allowed_host_pattern && is_empty s.allowed_hosts) ≡ false)
    × (require_anchored_pattern e s.allowed_host_pattern ≡ ok tt)
    × ((not (is_empty s.allowed_path_pattern) && not (is_empty s.allowed_path_prefixes)) ≡ false)
    × (require_anchored_pattern e s.allowed_path_pattern ≡ ok tt)
    × (lacks_digest s.bearer_auth ≡ false)
    × (validate_inject_header o s.inject_header ≡ ok tt)

validate-Passes : (e : Engine) (o : MapOrder) (s : Secret) → validate e o s ≡ ok tt → Passes e o s
unfolding validate
validate-Passes e o s h = ground arith

Passes-validate : (e : Engine) (o : MapOrder) (s : Secret) → Passes e o s → validate e o s ≡ ok tt
unfolding validate
Passes-validate e o s (a, b, c, d, f, g, i, j, k) = rw (a, b, c, d, f, g, i, j) k

-- Validate accepts exactly the secrets that keep the rules, in whatever order the map is visited.
pub validate_iff : (e : Engine) (o : MapOrder) (s : Secret) → (validate e o s ≡ ok tt) ↔ IsValid e s
validate_iff e o s =
    let (auth_to, auth_from) = one_auth_iff s.bearer_auth s.no_auth in
    let (hosts_to, hosts_from) = hosts_iff s.allowed_host_pattern s.allowed_hosts in
    let (host_to, host_from) = require_anchored_pattern_iff e s.allowed_host_pattern in
    let (paths_to, paths_from) = paths_iff s.allowed_path_pattern s.allowed_path_prefixes in
    let (path_to, path_from) = require_anchored_pattern_iff e s.allowed_path_pattern in
    let (proc_to, proc_from) = processor_iff o s.inject_header in
    (
      λ h.
          let (a, b, c, d, f, g, i, j, k) = validate-Passes e o s h in
          record {
            one_auth = auth_to (a, j);
            processor = proc_to (b, k);
            hosts = hosts_to (c, d);
            host_anchored = host_to f;
            paths = paths_to g;
            path_anchored = path_to i;
          },
      λ v.
          let (a, j) = auth_from v.one_auth in
          let (b, k) = proc_from v.processor in
          let (c, d) = hosts_from v.hosts in
          Passes-validate e o s (
            a,
            b,
            c,
            d,
            host_from v.host_anchored,
            paths_from v.paths,
            path_from v.path_anchored,
            j,
            k,
          ),
    )
