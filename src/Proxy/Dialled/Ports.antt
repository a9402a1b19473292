-- ===== src/Proxy/Dialled/Ports.antt =====
-- The port that a target of the director is dialled on.
use secretproxy.Prelude.{
  ℕ, ◌≡◌, ◌≤◌, ◌<◌, ◌||◌, ap, refl, ◌≢◌, true, false, [], ◌∷◌, ◌++◌, none, some, arith, ◌==◌,
  is_empty, all, ok, inl, inr, Option-cases, Bool-cases,
}
use secretproxy.Text.{
  Str, Unicode, to_lower, lower_ascii, lower_byte, is_ascii, contains_byte, count_byte, has_prefix,
  cut, str_eq,
}
use secretproxy.Text.Trimming.{is_ascii-append}
use secretproxy.Net.{has_bracket, cut_last, split_host_port}
use secretproxy.Proxy.Policy.{upstream_port, reject_non_standard_port, strip_port}
use secretproxy.Proxy.Policy.Ports.{reject_non_standard_port_iff}
use secretproxy.Proxy.Server.{Url}
use secretproxy.Proxy.Director.{target_of}
use secretproxy.Proxy.Dialled.{Idna, idna_host, is_digit, unbracket, hostname_port, dialled}

cut-append :
    (sep : ℕ) (s rest : Str)
    → contains_byte sep s ≡ false
    → cut sep (s ++ sep ∷ rest) ≡ some (s, rest)
unfolding cut contains_byte
cut-append sep [] rest h = ground arith
cut-append sep (c ∷ s) rest h = ground (arith, cut-append sep s rest)

cut_last-none : (sep : ℕ) (s : Str) → contains_byte sep s ≡ false → cut_last sep s ≡ none
unfolding cut_last contains_byte
cut_last-none sep [] h = refl
cut_last-none sep (c ∷ s) h = ground (arith, cut_last-none sep s)

cut_last-append :
    (sep : ℕ) (s rest : Str)
    → contains_byte sep rest ≡ false
    → cut_last sep (s ++ sep ∷ rest) ≡ some (s, rest)
unfolding cut_last
cut_last-append sep [] rest h = let e = cut_last-none sep rest h in ground arith
cut_last-append sep (c ∷ s) rest h = let e = cut_last-append sep s rest h in ground arith

-- Digits hold no colon, are ASCII and have no upper case.
digits_colon : (s : Str) → all is_digit s ≡ true → contains_byte b':' s ≡ false
unfolding contains_byte
digits_colon [] h = refl
digits_colon (c ∷ s) h = ground (arith, digits_colon s)

digits_bracket :
    (b : ℕ) (s : Str)
    → all is_digit s ≡ true
    → all is_digit (b ∷ []) ≡ false
    → contains_byte b s ≡ false
unfolding contains_byte
digits_bracket b [] h out = refl
digits_bracket b (c ∷ s) h out = ground (arith, digits_bracket b s)

digits_ascii : (s : Str) → all is_digit s ≡ true → is_ascii s ≡ true
digits_ascii [] h = refl
digits_ascii (c ∷ s) h = ground (arith, digits_ascii s)

digits_lower : (s : Str) → all is_digit s ≡ true → lower_ascii s ≡ s
unfolding lower_ascii lower_byte
digits_lower [] h = refl
digits_lower (c ∷ s) h = ground (arith, digits_lower s)

lower_ascii-append : (s t : Str) → lower_ascii (s ++ t) ≡ lower_ascii s ++ lower_ascii t
unfolding lower_ascii
lower_ascii-append [] t = refl
lower_ascii-append (c ∷ s) t = let e = lower_ascii-append s t in cc

contains_byte-append :
    (b : ℕ) (s t : Str) → contains_byte b (s ++ t) ≡ (contains_byte b s || contains_byte b t)
unfolding contains_byte
contains_byte-append b [] t = refl
contains_byte-append b (c ∷ s) t = ground (arith, contains_byte-append b s t)

count_byte-zero : (b : ℕ) (s : Str) → count_byte b s ≡ 0 → contains_byte b s ≡ false
unfolding contains_byte count_byte
count_byte-zero b [] h = refl
count_byte-zero b (c ∷ s) h = ground (arith, count_byte-zero b s)

-- A byte that occurs once, with the text on its two sides.
occurs_once :
    (b : ℕ) (s : Str)
    → contains_byte b s ≡ true
    → count_byte b s ≤ 1
    → (before after : Str) × (s ≡ before ++ b ∷ after)
      × (contains_byte b before ≡ false)
      × (contains_byte b after ≡ false)
unfolding contains_byte count_byte
occurs_once b [] h few = absurd (ground arith)
occurs_once b (c ∷ s) h few = elim (Bool-cases (c == b)) [
  | inl here ↦
      let same : c ≡ b = ground arith in
      ([], s, ap (λ x. x ∷ s) same, refl, count_byte-zero b s (ground arith))
  | inr other ↦
      let (before, after, e, k, l) = occurs_once b s (ground arith) (ground arith) in
      (c ∷ before, after, cc, ground arith, l)
]

-- Lower case adds none of the bytes in front of the letters of lower case.
lower_ascii-contains_byte :
    (b : ℕ) (s : Str) → b < 97 → contains_byte b s ≡ false → contains_byte b (lower_ascii s) ≡ false
unfolding contains_byte lower_ascii lower_byte
lower_ascii-contains_byte b [] low h = refl
lower_ascii-contains_byte b (c ∷ s) low h = ground (arith, lower_ascii-contains_byte b s)

-- What Split makes of a host without a bracket in front holds neither a colon nor an opening bracket.
plain_host-split :
    (host h port : Str)
    → has_prefix host (b'[' ∷ []) ≡ false
    → split_host_port host ≡ some (h, port)
    → (contains_byte b':' h ≡ false) × (contains_byte b'[' h ≡ false)
unfolding split_host_port has_prefix
plain_host-split [] h port front e = absurd (ground arith)
plain_host-split (c ∷ s) h port front e = elim (Option-cases (cut_last b':' (c ∷ s))) [
  | inl uncut ↦ absurd (ground arith)
  | inr ((before, after), cut) ↦
      elim (Bool-cases (contains_byte b':' before || (has_bracket before || has_bracket after))) [
        | inl bad ↦ absurd (ground arith)
        | inr good ↦ (ground arith, ground arith)
      ]
]

hostname_port-plain :
    (host : Str)
    → contains_byte b':' host ≡ false
    → contains_byte b'[' host ≡ false
    → hostname_port host ≡ (host, [])
unfolding hostname_port unbracket contains_byte
hostname_port-plain [] colon bracket = let e = cut_last-none b':' [] refl in cc
hostname_port-plain (c ∷ s) colon bracket = let e = cut_last-none b':' (c ∷ s) colon in ground arith

has_bracket-free :
    (s : Str) (c : ℕ) (t : Str)
    → contains_byte b'[' (s ++ c ∷ t) ≡ false
    → contains_byte b']' (s ++ c ∷ t) ≡ false
    → (has_bracket s ≡ false) × (has_bracket t ≡ false)
unfolding contains_byte
has_bracket-free s c t h k =
    let e = contains_byte-append b'[' s (c ∷ t) in
    let e' = contains_byte-append b']' s (c ∷ t) in (ground arith, ground arith)

-- `host:port` without another colon and without brackets is split at its colon.
split_host_port-plain :
    (host port : Str)
    → contains_byte b':' host ≡ false
    → contains_byte b':' port ≡ false
    → has_bracket host ≡ false
    → has_bracket port ≡ false
    → split_host_port (host ++ b':' ∷ port) ≡ some (host, port)
unfolding split_host_port contains_byte
split_host_port-plain [] port k l free free' =
    let e = cut_last-append b':' [] port l in ground arith
split_host_port-plain (c ∷ host) port k l free free' =
    let e = cut_last-append b':' (c ∷ host) port l in ground arith

-- `[host]:port` is split behind its bracket.
split_host_port-bracketed :
    (host port : Str)
    → has_bracket host ≡ false
    → contains_byte b':' port ≡ false
    → has_bracket port ≡ false
    → split_host_port (b'[' ∷ host ++ b']' ∷ b':' ∷ port) ≡ some (host, port)
unfolding split_host_port
split_host_port-bracketed host port free k free' =
    let e = cut-append b']' host (b':' ∷ port) (ground arith) in ground arith

-- An accepted host without a bracket in front is stripped to a text without colon and bracket.
strip_port-plain :
    (host : Str)
    → reject_non_standard_port host ≡ ok tt
    → has_prefix host (b'[' ∷ []) ≡ false
    → (contains_byte b':' (strip_port host) ≡ false)
      × (contains_byte b'[' (strip_port host) ≡ false)
unfolding strip_port
strip_port-plain host accepted front = elim (((reject_non_standard_port_iff host).0 accepted).1) [
  | inl (e, open_free, close_free, few) ↦ elim (Bool-cases (contains_byte b':' host)) [
    | inl colon ↦
        let (before, after, parts, k, l) = occurs_once b':' host colon few in
        let (free, free') =
          has_bracket-free before b':' after (rw parts at open_free) (rw parts at close_free) in
        let e' = split_host_port-plain before after k l free free' in absurd (ground arith)
    | inr free ↦ rw e (free, open_free)
  ]
  | inr (h, e) ↦ rw e (plain_host-split host h upstream_port front e)
]

unbracket-plain : (host : Str) → contains_byte b'[' host ≡ false → unbracket host ≡ host
unfolding unbracket contains_byte
unbracket-plain [] h = refl
unbracket-plain (c ∷ s) h = ground arith

hostname_port-inner :
    (a port : Str)
    → has_bracket a ≡ false
    → all is_digit port ≡ true
    → hostname_port (lower_ascii a ++ b':' ∷ port) ≡ (lower_ascii a, port)
unfolding hostname_port
hostname_port-inner a port free digits =
    let e = cut_last-append b':' (lower_ascii a) port (digits_colon port digits) in
    let bare = lower_ascii-contains_byte b'[' a (omega arith) (ground arith) in
    rw (e, digits, unbracket-plain (lower_ascii a) bare) refl

lower_ascii-ascii : (s : Str) → is_ascii s ≡ true → is_ascii (lower_ascii s) ≡ true
unfolding lower_ascii lower_byte
lower_ascii-ascii [] h = refl
lower_ascii-ascii (c ∷ s) h = ground (arith, lower_ascii-ascii s)

idna_host-ascii : ⦃n : Idna⦄ → (s : Str) → is_ascii s ≡ true → idna_host s ≡ s
unfolding idna_host
idna_host-ascii s h = rw h refl

full_of : (s : Str) → s ≢ [] → is_empty s ≡ false
full_of [] h = absurd (h refl)
full_of (c ∷ s) h = refl

inner_free :
    (a port : Str)
    → has_bracket a ≡ false
    → all is_digit port ≡ true
    → has_bracket (a ++ b':' ∷ port) ≡ false
unfolding contains_byte
inner_free a port free digits =
    let e = contains_byte-append b'[' a (b':' ∷ port) in
    let e' = contains_byte-append b']' a (b':' ∷ port) in
    let k = digits_bracket b'[' port digits refl in
    let k' = digits_bracket b']' port digits refl in ground arith

module _ ⦃u : Unicode⦄ ⦃n : Idna⦄ where
  -- Lower case adds no such byte to a text that is not ASCII.
  abbrev AddsNo : ℕ → Type 0
  AddsNo b = (s : Str) → contains_byte b s ≡ false → contains_byte b (u.lower s) ≡ false

  to_lower-contains_byte :
      (b : ℕ) (s : Str)
      → AddsNo b
      → b < 97
      → contains_byte b s ≡ false
      → contains_byte b (to_lower s) ≡ false
  unfolding to_lower
  to_lower-contains_byte b s kept low h =
      let e = lower_ascii-contains_byte b s low h in let e' = kept s h in ground arith

  -- A target whose host is accepted and has no bracket in front is dialled at that host, without
  -- its port, in lower case and, where it is not ASCII, in the form that IDNA gives it, on port 443, if lower case adds no colon and no opening bracket to
  -- a text that is not ASCII.
  pub unbracketed_dialled :
      (upstream : Url)
      → AddsNo b':'
      → AddsNo b'['
      → reject_non_standard_port upstream.host ≡ ok tt
      → has_prefix upstream.host (b'[' ∷ []) ≡ false
      → dialled (target_of upstream)
        ≡ (idna_host (to_lower (strip_port upstream.host)), upstream_port)
  unfolding dialled target_of str_eq
  unbracketed_dialled upstream no_colon no_bracket accepted front =
      let host = strip_port upstream.host in
      let (colon, bracket) = strip_port-plain upstream.host accepted front in
      let e =
        hostname_port-plain (to_lower host)
          (to_lower-contains_byte b':' host no_colon (omega arith) colon)
          (to_lower-contains_byte b'[' host no_bracket (omega arith) bracket) in
      rw e refl

  lower_inner :
      (a port : Str)
      → is_ascii a ≡ true
      → all is_digit port ≡ true
      → to_lower (a ++ b':' ∷ port) ≡ lower_ascii a ++ b':' ∷ port
  unfolding to_lower lower_ascii lower_byte
  lower_inner a port ascii digits =
      let e = is_ascii-append a (b':' ∷ port) ascii (digits_ascii port digits) in
      rw (e, lower_ascii-append a (b':' ∷ port), digits_lower port digits) refl

  -- A target whose host is `[a:port]:443`, where the text before the last colon is ASCII without
  -- brackets and the one behind it is of digits, is accepted and is dialled at `a`, in lower case,
  -- on the port inside the brackets.
  pub bracketed_dialled :
      (upstream : Url) (a port : Str)
      → upstream.host ≡ b'[' ∷ (a ++ b':' ∷ port) ++ b']' ∷ b':' ∷ upstream_port
      → is_ascii a ≡ true
      → has_bracket a ≡ false
      → all is_digit port ≡ true
      → port ≢ []
      → (reject_non_standard_port upstream.host ≡ ok tt)
        × (dialled (target_of upstream) ≡ (lower_ascii a, port))
  unfolding dialled target_of strip_port contains_byte
  bracketed_dialled upstream a port e ascii free digits some_port =
      let inner = a ++ b':' ∷ port in
      let split =
        split_host_port-bracketed inner upstream_port (inner_free a port free digits) refl refl in
      let accepted =
        (reject_non_standard_port_iff upstream.host).1
          (λ z. ground arith, inr (inner, rw e split)) in
      let out = hostname_port-inner a port free digits in
      let whole = idna_host-ascii (lower_ascii a) (lower_ascii-ascii a ascii) in
      (
        accepted,
        rw (e, split, lower_inner a port ascii digits, out, full_of port some_port, whole) refl,
      )
