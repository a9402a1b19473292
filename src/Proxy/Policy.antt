-- ===== src/Proxy/Policy.antt =====
-- proxy.go: rejectNonStandardPort, stripPort, validateHost, validatePath and validateMethod.
pub mod Ports
pub mod Hosts
pub mod Paths
use secretproxy.Prelude.{
  ℕ, zero, suc, ◌+◌, ◌-◌, ◌*◌, ◌/◌, ◌%◌, ◌^◌, ◌≤◌, ◌<◌, code, String, ◌≡◌, refl, sym, ap, ◌∙◌,
  ◌≡⟨◌⟩◌, ◌∎, ◌≢◌, ◌↔◌, ◌⊎◌, inl, inr, Bool, true, false, not, ◌&&◌, ◌||◌, Option, none, some, List,
  [], ◌∷◌, ◌++◌, append-nil, append_assoc, arith, ltb, leb, ◌==◌, if◌then◌else◌, ==_iff, Bool-cases,
  Option-cases, &&-eq-true, length, get_elem?, is_empty, length-append, any, all, last_or, All, Any,
  All-append, last_or-append, Result, ok, err, Check, ◌>>=◌, ◌>>◌, refuse_if, wrap, >>=-eq-ok,
  Result-cases,
}
use secretproxy.Text.{
  Str, codes, str_eq, Unicode, to_lower, contains_byte, count_byte, has_prefix, ends_with,
}
use secretproxy.Net.{split_host_port}
use secretproxy.Seal.{Secret}
use secretproxy.Seal.Regex.{Engine, match_string}
use secretproxy.Proxy.Dots.{DotError, refuse_dot_segments}

pub data PolicyError : Type 0 where
  empty_host malformed_host : PolicyError
  non_443_port : Str → PolicyError
  host_not_allowed host_pattern_error host_not_matched no_host_allowlist : PolicyError
  dots : DotError → PolicyError
  path_not_permitted path_pattern_error path_not_matched : PolicyError
  method_not_allowed : PolicyError

abbrev pub upstream_port : Str
upstream_port = codes "443"

unfoldable pub reject_non_standard_port : Str → Check PolicyError
reject_non_standard_port host =
    if is_empty host then err empty_host else elim (split_host_port host) [
      | none ↦
          refuse_if
            ((contains_byte b'[' host || contains_byte b']' host) || ltb 1 (count_byte b':' host))
            malformed_host
      | some (_, port) ↦ refuse_if (not (str_eq port upstream_port)) (non_443_port port)
    ]

abbrev host_or : Str → Option (Str × Str) → Str
host_or host none = host
host_or host (some (h, port)) = h

-- The empty host has no port to strip either.
unfoldable pub strip_port : Str → Str
strip_port host = host_or host (split_host_port host)

-- `contains` of proxy.go, and the loops over a list of allowed texts.
unfoldable pub contains : List Str → Str → Bool
contains [] needle = false
contains (h ∷ haystack) needle = str_eq h needle || contains haystack needle

-- What a call of regexp.MatchString makes of a text.
abbrev must_match : PolicyError → PolicyError → Option Bool → Check PolicyError
must_match bad unmatched none = err bad
must_match bad unmatched (some found) = refuse_if (not found) unmatched

abbrev pub fold_case : Str
fold_case = codes "(?i)"

module _ ⦃u : Unicode⦄ where
  unfoldable pub host_listed : List Str → Str → Bool
  host_listed [] host_lower = false
  host_listed (h ∷ hosts) host_lower =
      str_eq (to_lower h) host_lower || host_listed hosts host_lower

  unfoldable pub validate_host : Engine → Str → Secret → Check PolicyError
  validate_host e host secret =
      if not (is_empty secret.allowed_hosts)
      then refuse_if (not (host_listed secret.allowed_hosts (to_lower host))) host_not_allowed
      else if not (is_empty secret.allowed_host_pattern)
      then must_match host_pattern_error host_not_matched
          (match_string e (fold_case ++ secret.allowed_host_pattern) host)
      else err no_host_allowlist

-- The prefix with a slash at its end.
abbrev pub with_slash : Str → Str
with_slash p = if ends_with b'/' p then p else p ++ b'/' ∷ []

unfoldable pub prefix_admits : List Str → Str → Bool
prefix_admits [] path = false
prefix_admits (p ∷ prefixes) path =
    (str_eq path p || has_prefix path (with_slash p)) || prefix_admits prefixes path

unfoldable pub validate_path : Engine → Str → Secret → Check PolicyError
validate_path e path secret = do
  wrap dots (refuse_dot_segments path)
  if not (is_empty secret.allowed_path_prefixes)
      then refuse_if (not (prefix_admits secret.allowed_path_prefixes path)) path_not_permitted
      else if not (is_empty secret.allowed_path_pattern)
      then must_match path_pattern_error path_not_matched
          (match_string e secret.allowed_path_pattern path)
      else ok tt

unfoldable pub validate_method : Str → Secret → Check PolicyError
validate_method method secret =
    if is_empty secret.allowed_methods
    then ok tt
    else refuse_if (not (contains secret.allowed_methods method)) method_not_allowed
