-- ===== src/Proxy/Override.antt =====
-- proxy.go: what the request says about the seal. parseSealedHeader, extractBearer and
-- resolveProcessor.
pub mod Resolve
pub mod Bearer
pub mod Blob
use secretproxy.Prelude.{
  ℕ, zero, suc, ◌+◌, ◌-◌, ◌*◌, ◌/◌, ◌%◌, ◌^◌, ◌≤◌, ◌<◌, code, String, ◌≡◌, refl, sym, ap, ◌∙◌,
  ◌≡⟨◌⟩◌, ◌∎, ◌≢◌, ◌↔◌, ◌⊎◌, inl, inr, Bool, true, false, not, ◌&&◌, ◌||◌, Option, none, some, List,
  [], ◌∷◌, ◌++◌, append-nil, append_assoc, arith, ltb, leb, ◌==◌, if◌then◌else◌, ==_iff, Bool-cases,
  Option-cases, &&-eq-true, length, get_elem?, is_empty, length-append, any, all, last_or, All, Any,
  All-append, last_or-append, Result, ok, err, Check, ◌>>=◌, ◌>>◌, refuse_if, wrap, >>=-eq-ok,
  Result-cases,
}
use secretproxy.Text.{Str, codes, Unicode, trim_space, strip_prefix, cut}
use secretproxy.Encoding.Base64
use secretproxy.Seal.{InjectHeader}
use secretproxy.Proxy.Policy.{contains}

-- sealedHeaderOverride; the decoder of its JSON, which refuses unknown fields, is a parameter.
pub record Override : Type 0 where
  pub format : Str
  pub header_name : Str

abbrev pub OverrideDecoder : Type 0
OverrideDecoder = Str → Option Override

pub data HeaderError : Type 0 where
  missing_secret override_json : HeaderError

abbrev decoded_override : Str → Option Override → Result HeaderError (Str × Option Override)
decoded_override blob none = err override_json
decoded_override blob (some o) = ok (blob, some o)

abbrev pub bearer_prefix : Str
bearer_prefix = codes "Bearer "

abbrev pub basic_prefix : Str
basic_prefix = codes "Basic "

abbrev pub password : Option Str → Option Str
password none = none
password (some text) = elim (cut b':' text) [ none ↦ none | some (_, pass) ↦ some pass ]

module _ ⦃u : Unicode⦄ where
  -- The two parts of the header, the second only behind a `;`.
  abbrev sealed_parts :
      OverrideDecoder → Str → Option Str → Result HeaderError (Str × Option Override)
  sealed_parts decode [] more = err missing_secret
  sealed_parts decode (c ∷ blob) none = ok (c ∷ blob, none)
  sealed_parts decode (c ∷ blob) (some json) =
      decoded_override (c ∷ blob) (decode (trim_space json))

  abbrev sealed_cut :
      OverrideDecoder → Str → Option (Str × Str) → Result HeaderError (Str × Option Override)
  sealed_cut decode raw none = sealed_parts decode (trim_space raw) none
  sealed_cut decode raw (some (before, after)) =
      sealed_parts decode (trim_space before) (some after)

  unfoldable pub parse_sealed_header :
      OverrideDecoder → Str → Result HeaderError (Str × Option Override)
  parse_sealed_header decode raw =
      if is_empty raw then err missing_secret else sealed_cut decode raw (cut b';' raw)

  unfoldable pub extract_bearer : Str → Option Str
  extract_bearer h = elim (strip_prefix h bearer_prefix) [
    | some token ↦ some (trim_space token)
    | none ↦ elim (strip_prefix h basic_prefix) [
      | some raw ↦ password (Base64.decode (trim_space raw))
      | none ↦ none
    ]
  ]

pub data ResolveError : Type 0 where
  no_processor : ResolveError
  format_fixed header_name_fixed : ResolveError
  format_not_allowed header_name_not_allowed : ResolveError

abbrev pub default_format : Str
default_format = codes "Bearer %s"

abbrev pub default_header_name : Str
default_header_name = codes "Authorization"

abbrev pub or_default : Str → Str → Str
or_default default [] = default
or_default default (c ∷ s) = c ∷ s

-- One parameter of the processor: the seal's value, the values it allows, what the request asks for.
unfoldable pub override_one :
    ResolveError → ResolveError → Str → List Str → Str → Str → Result ResolveError Str
override_one fixed not_allowed sealed allowed current asked =
    if is_empty asked
    then ok current
    else if not (is_empty sealed)
    then err fixed
    else if not (contains allowed asked)
    then err not_allowed
    else ok asked

unfoldable pub resolve_processor :
    Option InjectHeader → Option Override → Result ResolveError (Str × Str)
resolve_processor none override = err no_processor
resolve_processor (some ih) none =
    ok (or_default default_format ih.format, or_default default_header_name ih.header_name)
resolve_processor (some ih) (some o) = do
  format ←
      override_one format_fixed format_not_allowed ih.format ih.allowed_formats
        (or_default default_format ih.format) o.format
  header_name ←
      override_one header_name_fixed header_name_not_allowed ih.header_name ih.allowed_header_names
        (or_default default_header_name ih.header_name) o.header_name
  ok (format, header_name)
