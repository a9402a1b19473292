-- ===== src/Tests/Sealing.antt =====
-- The theorems on seals, keys and patterns at the sample secret, and runs of the code.
use secretproxy.Prelude.{ℕ, ◌≡◌, refl, ◌↔◌, true, false, some, List, [], ◌∷◌, ◌++◌, arith, ok}
use secretproxy.Text.{Str, codes, str_eq, is_space}
use secretproxy.Text.Runes.{runes, runes_from, decode_rune}
use secretproxy.Text.Trimming.{IsBlank}
use secretproxy.Encoding.Hex
use secretproxy.Encoding.Hex.{IsByte, hex_digit}
use secretproxy.Encoding.Base64
use secretproxy.Encoding.Base64.{symbol, value, quanta}
use secretproxy.Seal.Regex.{begin_line, end_line, literal, concat, nil, cons, Matches, match_string}
use secretproxy.Seal.Anchors.{begins_with_anchor, ends_with_anchor, require_anchored_pattern}
use secretproxy.Seal.Anchors.Meaning.{accepted_pattern_covers, line_anchors_admit_more}
use secretproxy.Seal.Validate.{
  validate, validate_inject_header, scan_all, scan_each, scan_runes, is_control, thf, token,
  refuse_header_control_chars, is_control,
}
use secretproxy.Seal.Validate.Scan.{refuse_header_control_chars_iff, IsHeaderSafe}
use secretproxy.Seal.Validate.Rules.{validate_iff, IsValid}
use secretproxy.Seal.Euid.{new_euid}
use secretproxy.Seal.Euid.Shape.{new_euid-IsUuid4, IsUuid4}
use secretproxy.Seal.Envelope.{open_seal, open_plain, try_open, open_fallback, seal, seal_body}
use secretproxy.Seal.Envelope.Opening.{open_seal-IsOpened, IsOpened}
use secretproxy.Seal.Envelope.Sealing.{seal-IsLeft, open_seal-seal, IsLeft}
use secretproxy.Tests.Samples.{
  plain, no_folding, engine, engine-Sound, crypto, crypto-IsCorrectBox, stripe, codec-ReadsBack,
  lib, key, blob, charges, whole_word,
}

unfoldable code_of : Unit {0}
unfolding open_seal open_plain try_open open_fallback seal seal_body validate validate_inject_header
    scan_all scan_each refuse_header_control_chars scan_runes is_control runes runes_from
    decode_rune require_anchored_pattern begins_with_anchor ends_with_anchor match_string str_eq
    Base64.encode Base64.decode symbol value quanta
code_of = tt

stripe_sealed : seal lib stripe (crypto.public_of key) [] [] ≡ (ok blob, stripe)
unfolding code_of
stripe_sealed = refl

stripe_opened : open_seal lib blob key [] ≡ ok (stripe, false)
unfolding code_of
stripe_opened = refl

-- A key from before a rotation opens the blob as well, and the caller is told.
stripe_opened_by_fallback :
    open_seal lib blob (record { bytes = 6 ∷ [] }) (key ∷ []) ≡ ok (stripe, true)
unfolding code_of
stripe_opened_by_fallback = refl

validate_iff_example : (validate engine thf stripe ≡ ok tt) ↔ IsValid engine stripe
validate_iff_example = validate_iff engine thf stripe

open_seal-seal_example : open_seal lib blob key [] ≡ ok (stripe, false)
open_seal-seal_example =
    open_seal-seal lib stripe stripe key [] [] [] blob crypto-IsCorrectBox codec-ReadsBack
      stripe_sealed

open_seal-IsOpened_example : IsOpened lib blob key [] stripe false
open_seal-IsOpened_example = open_seal-IsOpened lib blob key [] stripe false stripe_opened

seal-IsLeft_example :
    IsLeft stripe
      (seal lib stripe (crypto.public_of key) [] []).1
      (seal lib stripe (crypto.public_of key) [] []).0
seal-IsLeft_example = seal-IsLeft lib stripe (crypto.public_of key) [] []

pattern_parsed : engine.parse (codes "^/v1/charges$") ≡ some (whole_word charges)
unfolding code_of
pattern_parsed = refl

pattern_accepted : require_anchored_pattern engine (codes "^/v1/charges$") ≡ ok tt
unfolding code_of
pattern_accepted = refl

pattern_found : match_string engine (codes "^/v1/charges$") charges ≡ some true
unfolding code_of
pattern_found = refl

accepted_pattern_covers_example : Matches (whole_word charges) [] (runes charges) []
accepted_pattern_covers_example =
    accepted_pattern_covers engine (codes "^/v1/charges$") charges (whole_word charges) engine-Sound
      pattern_parsed (tt, (tt, (tt, tt))) (λ h. cc) pattern_accepted pattern_found

line_anchors_admit_more_example :
    let re = concat (cons begin_line (cons (literal false charges) (cons end_line nil))) in
    (begins_with_anchor re ≡ true)
    × (ends_with_anchor re ≡ true)
    × Matches re (codes "/admin" ++ b'\n' ∷ []) charges (b'\n' ∷ codes "x")
line_anchors_admit_more_example = line_anchors_admit_more charges (codes "/admin") (codes "x")

refuse_header_control_chars_iff_example :
    (refuse_header_control_chars token (codes "sk_live_1") ≡ ok tt)
    ↔ IsHeaderSafe (codes "sk_live_1")
refuse_header_control_chars_iff_example = refuse_header_control_chars_iff token (codes "sk_live_1")

abbrev key_bytes : Str
key_bytes = codes "0123456789abcdef0123456789ABCDEF"

blank_lem : IsBlank (codes "\n") × IsBlank (codes " \n")
unfolding is_space
blank_lem = (refl, refl)

abbrev random_bytes : List ℕ
random_bytes = 1 ∷ 2 ∷ 3 ∷ 4 ∷ 5 ∷ 6 ∷ 255 ∷ 8 ∷ 255 ∷ 10 ∷ 11 ∷ 12 ∷ 13 ∷ 14 ∷ 15 ∷ 0 ∷ []

new_euid-IsUuid4_example : (t : Str) × (new_euid random_bytes ≡ some t) × IsUuid4 t
new_euid-IsUuid4_example = new_euid-IsUuid4 random_bytes refl (ground arith)

random_bytes_euid : new_euid random_bytes ≡ some (codes "01020304-0506-4f08-bf0a-0b0c0d0e0f00")
unfolding new_euid Hex.encode hex_digit
random_bytes_euid = refl
