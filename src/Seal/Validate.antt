-- ===== src/Seal/Validate.antt =====
-- seal.go: Secret.Validate, with the scan for control characters.
pub mod Scan
pub mod Rules
use secretproxy.Prelude.{
  ℕ, zero, suc, ◌+◌, ◌-◌, ◌*◌, ◌/◌, ◌%◌, ◌^◌, ◌≤◌, ◌<◌, code, String, ◌≡◌, refl, sym, ap, ◌∙◌,
  ◌≡⟨◌⟩◌, ◌∎, ◌≢◌, ◌↔◌, ◌⊎◌, inl, inr, Bool, true, false, not, ◌&&◌, ◌||◌, Option, none, some, List,
  [], ◌∷◌, ◌++◌, append-nil, append_assoc, arith, ltb, leb, ◌==◌, if◌then◌else◌, ==_iff, Bool-cases,
  Option-cases, &&-eq-true, length, is_empty, length-append, any, all, last_or, All, Any,
  All-append, last_or-append, Result, ok, err, Check, ◌>>=◌, ◌>>◌, refuse_if, wrap, >>=-eq-ok,
  Result-cases,
}
use secretproxy.Text.{Str}
use secretproxy.Text.Runes.{runes}
use secretproxy.Seal.{Secret, InjectHeader, BearerAuth, is_some}
use secretproxy.Seal.Regex.{Engine}
use secretproxy.Seal.Anchors.{PatternError, require_anchored_pattern}

-- The labels of the scanned values; a list's entry is named with its index.
pub data Label : Type 0 where
  token format header_name : Label
  allowed_format allowed_header_name : ℕ → Label

pub data SealError : Type 0 where
  auth_tags processor_tags : ℕ → SealError
  hosts_exclusive host_allowlist_required paths_exclusive digest_required token_required : SealError
  host_pattern path_pattern : PatternError → SealError
  control_character : Label → ℕ → SealError

-- A code point that may not stand in a header's value.
unfoldable pub is_control : ℕ → Bool
is_control r = if r == b'\t' then false else ltb r 0x20 || r == 0x7F

unfoldable pub scan_runes : Label → List ℕ → Check SealError
scan_runes label [] = ok tt
scan_runes label (r ∷ rs) =
    let rest = scan_runes label rs in if is_control r then err (control_character label r) else rest

unfoldable pub refuse_header_control_chars : Label → Str → Check SealError
unfolding scan_runes is_control
refuse_header_control_chars label v = scan_runes label (runes v)

-- The loop over a slice, from the index `i` on.
unfoldable pub scan_each : (ℕ → Label) → ℕ → List Str → Check SealError
unfolding refuse_header_control_chars
scan_each label i [] = ok tt
scan_each label i (v ∷ vs) = refuse_header_control_chars (label i) v >> scan_each label (suc i) vs

unfoldable pub scan_all : List (Label × Str) → Check SealError
unfolding refuse_header_control_chars
scan_all [] = ok tt
scan_all ((label, v) ∷ vs) = refuse_header_control_chars label v >> scan_all vs

-- The order in which Go's `range` visits the map of three labels is not specified.
pub data MapOrder : Type 0 where
  thf tfh htf hft fth fht : MapOrder

abbrev pub in_order : MapOrder → InjectHeader → List (Label × Str)
in_order o ih =
    let t : Label × Str = (token, ih.token) in
    let f : Label × Str = (format, ih.format) in
    let h : Label × Str = (header_name, ih.header_name) in
    elim o [
      | thf ↦ t ∷ h ∷ f ∷ []
      | tfh ↦ t ∷ f ∷ h ∷ []
      | htf ↦ h ∷ t ∷ f ∷ []
      | hft ↦ h ∷ f ∷ t ∷ []
      | fth ↦ f ∷ t ∷ h ∷ []
      | fht ↦ f ∷ h ∷ t ∷ []
    ]

-- `if s.InjectHeader != nil { … }`.
unfoldable pub validate_inject_header : MapOrder → Option InjectHeader → Check SealError
validate_inject_header o none = ok tt
validate_inject_header o (some ih) = do
  refuse_if (is_empty ih.token) token_required
  scan_all (in_order o ih)
  scan_each allowed_format 0 ih.allowed_formats
  scan_each allowed_header_name 0 ih.allowed_header_names

abbrev pub count_tag : Bool → ℕ
count_tag true = 1
count_tag false = 0

abbrev pub lacks_digest : Option BearerAuth → Bool
lacks_digest none = false
lacks_digest (some b) = is_empty b.digest

unfoldable pub validate : Engine → MapOrder → Secret → Check SealError
validate e o s = do
  let auths = count_tag (is_some s.bearer_auth) + count_tag (is_some s.no_auth)
  refuse_if (not (auths == 1)) (auth_tags auths)
  let procs = count_tag (is_some s.inject_header)
  refuse_if (not (procs == 1)) (processor_tags procs)
  refuse_if (not (is_empty s.allowed_host_pattern) && not (is_empty s.allowed_hosts))
      hosts_exclusive
  refuse_if (is_empty s.allowed_host_pattern && is_empty s.allowed_hosts) host_allowlist_required
  wrap host_pattern (require_anchored_pattern e s.allowed_host_pattern)
  refuse_if (not (is_empty s.allowed_path_pattern) && not (is_empty s.allowed_path_prefixes))
      paths_exclusive
  wrap path_pattern (require_anchored_pattern e s.allowed_path_pattern)
  refuse_if (lacks_digest s.bearer_auth) digest_required
  validate_inject_header o s.inject_header
