-- ===== src/Proxy/Ingress.antt =====
-- ingress.go: the allowlist of client addresses.
pub mod Source
pub mod Allowlist
use secretproxy.Prelude.{
  ℕ, zero, suc, ◌+◌, ◌-◌, ◌*◌, ◌/◌, ◌%◌, ◌^◌, ◌≤◌, ◌<◌, code, String, ◌≡◌, refl, sym, ap, ◌∙◌,
  ◌≡⟨◌⟩◌, ◌∎, ◌≢◌, ◌↔◌, ◌⊎◌, inl, inr, Bool, true, false, not, ◌&&◌, ◌||◌, Option, none, some, List,
  [], ◌∷◌, ◌++◌, append-nil, append_assoc, arith, ltb, leb, ◌==◌, if◌then◌else◌, ==_iff, Bool-cases,
  Option-cases, &&-eq-true, length, get_elem?, is_empty, length-append, any, all, last_or, All, Any,
  All-append, last_or-append, Result, ok, err, Check, ◌>>=◌, ◌>>◌, refuse_if, wrap, >>=-eq-ok,
  Result-cases,
}
use secretproxy.Text.{Str, codes, Unicode, trim_space, contains_byte, split, trim_left, trim_right}
use secretproxy.Net.{split_host_port}
use secretproxy.Net.Addr
use secretproxy.Net.Addr.{Addr, Prefix, Parsers, is6, is_4_in_6, unmap, prefix_from, masked}
use secretproxy.Http.{Header, get, values}

abbrev pub cf_connecting_ip : Str
cf_connecting_ip = codes "CF-Connecting-IP"

abbrev pub x_forwarded_for : Str
x_forwarded_for = codes "X-Forwarded-For"

abbrev pub cloudflare_trust_headers : List Str
cloudflare_trust_headers =
    cf_connecting_ip
    ∷ codes "CF-Ray"
    ∷ codes "CF-IPCountry"
    ∷ codes "CF-Visitor"
    ∷ codes "True-Client-IP"
    ∷ []

pub data IngressError : Type 0 where
  cf_connecting_ip_absent rightmost_entry_empty client_ip_unparsable : IngressError

-- strings.Trim(s, "[]").
unfoldable pub trim_brackets : Str → Str
unfolding trim_left trim_right
trim_brackets s =
    let bracket = λ (c : ℕ). c == b'[' || c == b']' in trim_right bracket (trim_left bracket s)

abbrev host_part : Str → Option (Str × Str) → Str
host_part s none = s
host_part s (some (host, port)) = host

module _ (parsers : Parsers) where
  unfoldable pub parse_ip_maybe_port : Str → Result IngressError Addr
  parse_ip_maybe_port s =
      elim (parsers.parse_addr (trim_brackets (host_part s (split_host_port s)))) [
        | none ↦ err client_ip_unparsable
        | some addr ↦ ok (unmap addr)
      ]

  unfoldable pub parse_cidr_or_ip : Str → Option Prefix
  parse_cidr_or_ip raw =
      if contains_byte b'/' raw
      then elim (parsers.parse_prefix raw) [ none ↦ none | some p ↦ some (masked p) ]
      else elim (parsers.parse_addr raw) [
        | none ↦ none
        | some addr ↦
            some (prefix_from (unmap addr) (if is6 addr && not (is_4_in_6 addr) then 128 else 32))
      ]

  -- A value, or an error for an empty one.
  abbrev pub unless_empty : IngressError → Str → Result IngressError Addr
  unless_empty e [] = err e
  unless_empty e (c ∷ s) = parse_ip_maybe_port (c ∷ s)

  module _ ⦃u : Unicode⦄ where
    -- The loop of ParseAllowedClientCIDRs; blank entries are skipped, the error names the entry.
    unfoldable pub parse_allowed_client_cidrs : List Str → Result Str (List Prefix)
    parse_allowed_client_cidrs [] = ok []
    parse_allowed_client_cidrs (raw ∷ entries) =
        let rest = parse_allowed_client_cidrs entries in
        if is_empty (trim_space raw) then rest else elim (parse_cidr_or_ip (trim_space raw)) [
          | none ↦ err (trim_space raw)
          | some p ↦ rest >>= λ out. ok (p ∷ out)
        ]

    -- The rightmost token of a line.
    abbrev rightmost : Str → Str
    rightmost line = trim_space (last_or [] (split b',' line))

    unfoldable pub client_ip_from_request :
        Header
        → (remote_addr : Str) → (trust_terminator trust_cloudflare : Bool)
        → Result IngressError Addr
    client_ip_from_request h remote_addr trust_terminator trust_cloudflare =
        if trust_cloudflare
        then unless_empty cf_connecting_ip_absent (trim_space (get h cf_connecting_ip))
        else if trust_terminator && not (is_empty (values h x_forwarded_for))
        then unless_empty rightmost_entry_empty (rightmost (last_or [] (values h x_forwarded_for)))
        else parse_ip_maybe_port remote_addr

abbrev any_contains : List Prefix → Addr → Bool
any_contains prefixes addr = any (λ p. Addr.contains p addr) prefixes

unfoldable pub ip_in_prefixes : Addr → List Prefix → Bool
ip_in_prefixes addr prefixes = any_contains prefixes (unmap addr)
