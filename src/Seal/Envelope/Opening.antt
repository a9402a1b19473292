-- ===== src/Seal/Envelope/Opening.antt =====
-- What Open returns, on each of its paths.
use secretproxy.Prelude.{
  ◌≡◌, ◌↔◌, inl, inr, Bool, true, false, none, some, List, [], ◌∷◌, arith, ==_iff, Option-cases,
  length, All, ok,
}
use secretproxy.Text.{Str}
use secretproxy.Text.Laws.{str_eq_iff}
use secretproxy.Encoding.Base64
use secretproxy.Encoding.Hex.{IsByte}
use secretproxy.Seal.{PrivateKey, Secret}
use secretproxy.Seal.Validate.{validate}
use secretproxy.Seal.Validate.Rules.{IsValid, validate_iff}
use secretproxy.Seal.Envelope.{
  Crypto, Lib, verify_bearer, hash_bearer, try_open, open_fallback, open_plain, open_seal,
}

-- The first key of the list that opens a box, and what it opens it to.
pub data FirstOpens (c : Crypto) (raw : Str) : List PrivateKey → Str → Type 0 where
  here :
      {k : PrivateKey} {ks : List PrivateKey} {plain : Str}
      → try_open c raw k ≡ some plain
      → FirstOpens c raw (k ∷ ks) plain
  there :
      {k : PrivateKey} {ks : List PrivateKey} {plain : Str}
      → try_open c raw k ≡ none
      → FirstOpens c raw ks plain
      → FirstOpens c raw (k ∷ ks) plain

module _ (c : Crypto) (raw : Str) where
  open_fallback-FirstOpens :
      (ks : List PrivateKey) {plain : Str}
      → open_fallback c raw ks ≡ some plain
      → FirstOpens c raw ks plain
  unfolding open_fallback
  open_fallback-FirstOpens [] h = cc
  open_fallback-FirstOpens (k ∷ ks) h = elim (Option-cases (try_open c raw k)) [
    | inl shut ↦ there shut (open_fallback-FirstOpens ks (ground arith))
    | inr (plain, opened) ↦ here (ground arith)
  ]

  -- Which key opened the box, by the flag.
  abbrev OpenedBy : PrivateKey → List PrivateKey → Str → Bool → Type 0
  OpenedBy k ks plain false = try_open c raw k ≡ some plain
  OpenedBy k ks plain true = (try_open c raw k ≡ none) × FirstOpens c raw ks plain

  open_plain-OpenedBy :
      (k : PrivateKey) (ks : List PrivateKey) (plain : Str) (used : Bool)
      → open_plain c raw k ks ≡ some (plain, used)
      → OpenedBy k ks plain used
  unfolding open_plain
  open_plain-OpenedBy k ks plain used h = elim (Option-cases (try_open c raw k)) [
    | inl shut ↦ elim (Option-cases (open_fallback c raw ks)) [
      | inl none_left ↦ absurd (ground arith)
      | inr (found, opened) ↦
          let same : plain ≡ found = ground arith in
          let flag : used ≡ true = ground arith in
          rw flag (shut, rw same (open_fallback-FirstOpens ks opened))
    ]
    | inr (found, opened) ↦
        let same : plain ≡ found = ground arith in
        let flag : used ≡ false = ground arith in rw flag (rw same opened)
  ]

-- What stands behind a secret that Open returned.
pub record IsOpened (lib : Lib) (blob : Str) (k : PrivateKey) (ks : List PrivateKey) (s : Secret)
    (used : Bool) : Type 0 where
  pub raw : Str
  pub plain : Str
  pub decoded : Base64.decode blob ≡ some raw
  pub opened : OpenedBy lib.crypto raw k ks plain used
  pub unmarshalled : lib.codec.unmarshal plain ≡ some s
  pub valid : IsValid lib.engine s

-- Every secret that Open returns keeps the rules of Validate, and was opened by the first key that
-- opens its box: the flag is false if that is the primary key, and true only if the primary key does
-- not open the box and a fallback key does.
pub open_seal-IsOpened :
    (lib : Lib) (blob : Str) (k : PrivateKey) (ks : List PrivateKey) (s : Secret) (used : Bool)
    → open_seal lib blob k ks ≡ ok (s, used)
    → IsOpened lib blob k ks s used
unfolding open_seal
open_seal-IsOpened lib blob k ks s used h = elim (Option-cases (Base64.decode blob)) [
  | inl bad ↦ absurd (ground arith)
  | inr (raw, decoded) ↦ elim (Option-cases (open_plain lib.crypto raw k ks)) [
    | inl shut ↦ absurd (ground arith)
    | inr ((plain, flag), opened) ↦ elim (Option-cases (lib.codec.unmarshal plain)) [
      | inl bad ↦ absurd (ground arith)
      | inr (found, unmarshalled) ↦
          let same : found ≡ s = ground arith in
          let same_flag : flag ≡ used = ground arith in
          let checked : validate lib.engine lib.map_order found ≡ ok tt = ground arith in
          record {
            raw = raw;
            plain = plain;
            decoded = decoded;
            opened = open_plain-OpenedBy lib.crypto raw k ks plain used (rw same_flag at opened);
            unmarshalled = rw same at unmarshalled;
            valid = (validate_iff lib.engine lib.map_order s).0 (rw same at checked);
          }
    ]
  ]
]

-- SHA-256 yields 32 bytes.
abbrev pub IsDigest : Crypto → Type 0
IsDigest c = (t : Str) → (length (c.sha256 t) ≡ 32) × All IsByte (c.sha256 t)

-- If SHA-256 gives 32 bytes, then VerifyBearer accepts a bearer against the digest that HashBearer made
-- of a token exactly if the two have the same SHA-256.
pub verify_bearer-hash_bearer :
    (c : Crypto) (token presented : Str)
    → IsDigest c
    → (verify_bearer c (record { digest = hash_bearer c token }) presented ≡ true)
      ↔ (c.sha256 presented ≡ c.sha256 token)
unfolding verify_bearer hash_bearer
verify_bearer-hash_bearer c token presented digest =
    let (size, in_bytes) = digest token in
    let e = Base64.decode-encode (c.sha256 token) in_bytes in
    rw (e, verify_bearer, (==_iff (length (c.sha256 token)) 32).1 size)
      (str_eq_iff (c.sha256 presented) (c.sha256 token))
