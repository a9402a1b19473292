-- ===== src/Seal/Validate/Scan.antt =====
-- The scan for control characters, code point by code point, decides a rule on bytes.
use secretproxy.Prelude.{
  ℕ, suc, ◌≤◌, ◌≡◌, refl, ◌≢◌, ◌↔◌, ◌⊎◌, true, not, List, [], ◌∷◌, arith, &&-eq-true, all, All,
  Result, ok, err, ◌>>◌,
}
use secretproxy.Text.{Str}
use secretproxy.Text.Runes.{runes, all-runes}
use secretproxy.Seal.Validate.{
  Label, is_control, scan_runes, refuse_header_control_chars, scan_each, scan_all,
}

-- A byte that net/http lets stand in a header's value.
abbrev IsHeaderByte : ℕ → Type 0
IsHeaderByte c = (c ≡ b'\t') ⊎ ((0x20 ≤ c) × (c ≢ 0x7F))

abbrev pub IsHeaderSafe : Str → Type 0
IsHeaderSafe = All IsHeaderByte

is_allowed-upper : (c : ℕ) → 0x80 ≤ c → not (is_control c) ≡ true
unfolding is_control
is_allowed-upper c h = ground arith

is_allowed_iff : (c : ℕ) → (not (is_control c) ≡ true) ↔ IsHeaderByte c
unfolding is_control
is_allowed_iff c = ground arith

scan_runes_iff :
    (label : Label) (rs : List ℕ)
    → (scan_runes label rs ≡ ok tt) ↔ (all (λ c. not (is_control c)) rs ≡ true)
unfolding scan_runes
scan_runes_iff label [] = ground arith
scan_runes_iff label (r ∷ rs) = grind (arith, scan_runes_iff label rs)

all-IsHeaderSafe : (v : Str) → (all (λ c. not (is_control c)) v ≡ true) ↔ IsHeaderSafe v
all-IsHeaderSafe [] = (λ _. tt, λ _. refl)
all-IsHeaderSafe (c ∷ v) = (
  λ h.
      let (here, later) = &&-eq-true _ _ h in
      ((is_allowed_iff c).0 here, (all-IsHeaderSafe v).0 later),
  λ h. rw ((is_allowed_iff c).1 h.0) ((all-IsHeaderSafe v).1 h.1),
)

-- A text is accepted exactly if none of its bytes is a control byte: no sequence of bytes decodes to a
-- control character that its bytes do not show.
pub refuse_header_control_chars_iff :
    (label : Label) (v : Str) → (refuse_header_control_chars label v ≡ ok tt) ↔ IsHeaderSafe v
unfolding refuse_header_control_chars
refuse_header_control_chars_iff label v =
    let same = all-runes (λ c. not (is_control c)) is_allowed-upper v in
    let (to, from) = scan_runes_iff label (runes v) in
    let (safe, unsafe) = all-IsHeaderSafe v in
    (λ h. safe (rw same at (to h)), λ h. from (rw same (unsafe h)))

-- Of checks in a row, each must pass.
>>_iff {ℓ} :
    {E : Type ℓ} (m k : Result E (Unit {0})) → ((m >> k) ≡ ok tt) ↔ ((m ≡ ok tt) × (k ≡ ok tt))
>>_iff (ok tt) k = (λ h. (refl, h), λ h. h.1)
>>_iff (err e) k = (λ h. cc, λ h. cc)

pub scan_each_iff :
    (label : ℕ → Label) (i : ℕ) (vs : List Str)
    → (scan_each label i vs ≡ ok tt) ↔ All IsHeaderSafe vs
unfolding scan_each
scan_each_iff label i [] = (λ _. tt, λ _. refl)
scan_each_iff label i (v ∷ vs) =
    let (to, from) =
      >>_iff (refuse_header_control_chars (label i) v) (scan_each label (suc i) vs) in
    let (safe, unsafe) = refuse_header_control_chars_iff (label i) v in
    let (rest, back) = scan_each_iff label (suc i) vs in
    (λ h. (safe (to h).0, rest (to h).1), λ h. from (unsafe h.0, back h.1))

pub scan_all_iff :
    (vs : List (Label × Str)) → (scan_all vs ≡ ok tt) ↔ All (λ v. IsHeaderSafe v.1) vs
unfolding scan_all
scan_all_iff [] = (λ _. tt, λ _. refl)
scan_all_iff ((label, v) ∷ vs) =
    let (to, from) = >>_iff (refuse_header_control_chars label v) (scan_all vs) in
    let (safe, unsafe) = refuse_header_control_chars_iff label v in
    let (rest, back) = scan_all_iff vs in
    (λ h. (safe (to h).0, rest (to h).1), λ h. from (unsafe h.0, back h.1))
