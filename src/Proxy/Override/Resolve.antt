-- ===== src/Proxy/Override/Resolve.antt =====
-- Where the format and the header's name come from, and that they are safe to send.
use secretproxy.Prelude.{
  ◌≡◌, refl, ◌≢◌, ◌↔◌, ◌⊎◌, inl, inr, Option, none, some, List, [], ◌∷◌, arith, Bool-cases, All,
  Any, Result, ok, err, ◌>>=◌,
}
use secretproxy.Text.{Str}
use secretproxy.Seal.{InjectHeader}
use secretproxy.Seal.Validate.Scan.{IsHeaderSafe}
use secretproxy.Seal.Validate.Rules.{HasProcessor}
use secretproxy.Proxy.Policy.{contains}
use secretproxy.Proxy.Policy.Paths.{contains_iff}
use secretproxy.Proxy.Override.{
  Override, ResolveError, override_one, resolve_processor, or_default, default_format,
  default_header_name, format_fixed, format_not_allowed, header_name_fixed, header_name_not_allowed,
}

-- What the request asks for; nothing where it has no override.
abbrev asked_format : Option Override → Str
asked_format none = []
asked_format (some o) = o.format

abbrev asked_header_name : Option Override → Str
asked_header_name none = []
asked_header_name (some o) = o.header_name

-- Nothing is asked for, and the seal's value or the default is taken; or the seal leaves the value
-- open, lists what is asked for, and that is taken.
abbrev pub IsChosen : (default sealed : Str) → (allowed : List Str) → (asked got : Str) → Type 0
IsChosen default sealed allowed asked got =
    ((asked ≡ []) × (got ≡ or_default default sealed))
    ⊎ ((asked ≢ []) × (sealed ≡ []) × Any (λ a. a ≡ asked) allowed × (got ≡ asked))

override_one_iff :
    (fixed not_allowed : ResolveError) (default sealed : Str) (allowed : List Str) (asked got : Str)
    → (override_one fixed not_allowed sealed allowed (or_default default sealed) asked ≡ ok got)
      ↔ IsChosen default sealed allowed asked got
unfolding override_one
override_one_iff fixed not_allowed default sealed allowed [] got = ground arith
override_one_iff fixed not_allowed default (s ∷ sealed) allowed (a ∷ asked) got =
    (λ h. cc, λ h. elim h [ inl (e, _) ↦ cc | inr (_, e, _, _) ↦ cc ])
override_one_iff fixed not_allowed default [] allowed (a ∷ asked) got =
    let (to, from) = contains_iff allowed (a ∷ asked) in
    elim (Bool-cases (contains allowed (a ∷ asked))) [
      | inl listed ↦ (
        λ h. inr (cc, refl, to listed, ground arith),
        λ h. elim h [ inl (e, _) ↦ cc | inr (_, _, _, same) ↦ ground arith ],
      )
      | inr unlisted ↦ (
        λ h. absurd (ground arith),
        λ h. elim h [
          | inl (e, _) ↦ cc
          | inr (_, _, listed, _) ↦ let found = from listed in absurd (ground arith)
        ],
      )
    ]

abbrev IsResolved : InjectHeader → Option Override → Str → Str → Type 0
IsResolved ih o format header_name =
    IsChosen default_format ih.format ih.allowed_formats (asked_format o) format
    × IsChosen default_header_name ih.header_name ih.allowed_header_names (asked_header_name o)
        header_name

without_override :
    (ih : InjectHeader) (format header_name : Str)
    → (resolve_processor (some ih) none ≡ ok (format, header_name))
      ↔ IsResolved ih none format header_name
unfolding resolve_processor
without_override ih format header_name = (
  λ h. (inl (refl, ground arith), inl (refl, ground arith)),
  λ h. elim (h.0) [
    | inl (_, e) ↦ elim (h.1) [ inl (_, e') ↦ ground arith | inr (n, _, _, _) ↦ absurd (n refl) ]
    | inr (n, _, _, _) ↦ absurd (n refl)
  ],
)

pair_iff :
    (m n : Result ResolveError Str) (a b : Str)
    → ((m >>= λ x. n >>= λ y. let r : Result ResolveError (Str × Str) = ok (x, y) in r) ≡ ok (a, b))
      ↔ ((m ≡ ok a) × (n ≡ ok b))
pair_iff (ok x) (ok y) a b = ground arith
pair_iff (ok x) (err e) a b = (λ h. cc, λ h. cc (h.1))
pair_iff (err e) n a b = (λ h. cc, λ h. cc (h.0))

-- The format and the header's name are resolved exactly as the seal permits: an override counts only
-- where the seal leaves the value empty and lists the override, and any other override is refused.
pub resolve_processor_iff :
    (ih : InjectHeader) (o : Option Override) (format header_name : Str)
    → (resolve_processor (some ih) o ≡ ok (format, header_name)) ↔ (
        IsChosen default_format ih.format ih.allowed_formats (asked_format o) format
        × IsChosen default_header_name ih.header_name ih.allowed_header_names
            (asked_header_name o)
            header_name)
resolve_processor_iff ih none format header_name = without_override ih format header_name
resolve_processor_iff ih (some o) format header_name =
    let (f_to, f_from) =
      override_one_iff format_fixed format_not_allowed default_format ih.format ih.allowed_formats
        o.format format in
    let (n_to, n_from) =
      override_one_iff header_name_fixed header_name_not_allowed default_header_name ih.header_name
        ih.allowed_header_names o.header_name header_name in
    let (to, from) =
      pair_iff
        (override_one format_fixed format_not_allowed ih.format ih.allowed_formats
          (or_default default_format ih.format) o.format)
        (override_one header_name_fixed header_name_not_allowed ih.header_name
          ih.allowed_header_names (or_default default_header_name ih.header_name) o.header_name)
        format header_name in
    unfold resolve_processor in
    (λ h. (f_to (to h).0, n_to (to h).1), λ h. from (f_from h.0, n_from h.1))

of_Any :
    (allowed : List Str) (asked : Str)
    → All IsHeaderSafe allowed
    → Any (λ a. a ≡ asked) allowed
    → IsHeaderSafe asked
of_Any [] asked h e = absurd e
of_Any (a ∷ allowed) asked (p, h) (inl e) = rw (← e) p
of_Any (a ∷ allowed) asked (p, h) (inr later) = of_Any allowed asked h later

or_default-IsHeaderSafe :
    (default sealed : Str)
    → IsHeaderSafe default
    → IsHeaderSafe sealed
    → IsHeaderSafe (or_default default sealed)
or_default-IsHeaderSafe default [] d s = d
or_default-IsHeaderSafe default (c ∷ sealed) d s = s

chosen-IsHeaderSafe :
    (default sealed : Str) (allowed : List Str) (asked got : Str)
    → IsHeaderSafe default
    → IsHeaderSafe sealed
    → All IsHeaderSafe allowed
    → IsChosen default sealed allowed asked got
    → IsHeaderSafe got
chosen-IsHeaderSafe default sealed allowed asked got d s a (inl (_, e)) =
    rw e (or_default-IsHeaderSafe default sealed d s)
chosen-IsHeaderSafe default sealed allowed asked got d s a (inr (_, _, listed, e)) =
    rw e (of_Any allowed asked a listed)

-- Whatever the request asks for, the format and the name that are resolved of a processor that keeps
-- the rules hold no control character.
pub resolved-IsHeaderSafe :
    (ih : InjectHeader) (o : Option Override) (format header_name : Str)
    → HasProcessor (some ih)
    → resolve_processor (some ih) o ≡ ok (format, header_name)
    → IsHeaderSafe format × IsHeaderSafe header_name
resolved-IsHeaderSafe ih o format header_name (_, _, f, n, fs, ns) h =
    let (chosen_format, chosen_name) = (resolve_processor_iff ih o format header_name).0 h in
    (
      chosen-IsHeaderSafe default_format ih.format ih.allowed_formats (asked_format o) format
          (omega arith) f fs chosen_format,
      chosen-IsHeaderSafe default_header_name ih.header_name ih.allowed_header_names
          (asked_header_name o) header_name (omega arith) n ns chosen_name,
    )
