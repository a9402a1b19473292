-- ===== src/Seal/Envelope/Sealing.antt =====
-- What Seal does to the caller's secret, and that Open undoes it.
use secretproxy.Prelude.{
  wrap-eq-ok, ◌≡◌, refl, sym, ap, ◌≢◌, inl, inr, false, Option, none, some, List, [], ◌∷◌, arith,
  All, Result, ok, err, wrap, >>=-eq-ok, Result-cases,
}
use secretproxy.Text.{Str}
use secretproxy.Encoding.Base64
use secretproxy.Encoding.Hex.{IsByte}
use secretproxy.Seal.{PrivateKey, PublicKey, Secret}
use secretproxy.Seal.Validate.{validate}
use secretproxy.Seal.Envelope.{
  Crypto, Codec, Lib, try_open, open_plain, or_error, open_seal, SealFailure, stamp, seal_body,
  seal, finish_seal,
}
use mathlib.Core.Path.{subst}

-- The box is correct: what was sealed for a key is opened by it, and is made of bytes.
abbrev pub IsCorrectBox : Crypto → Type 0
IsCorrectBox c =
    (message : Str) (k : PrivateKey) (random sealed : Str)
    → c.seal_anonymous message (c.public_of k) random ≡ some sealed
    → (c.open_anonymous sealed (c.public_of k) k ≡ some message) × All IsByte sealed

-- The codec reads back what it wrote for this secret.
abbrev pub ReadsBack : Codec → Secret → Type 0
ReadsBack codec s = (body : Str) → codec.marshal s ≡ some body → codec.unmarshal body ≡ some s

abbrev blob_or_nil : Result SealFailure Str → Str
blob_or_nil (ok blob) = blob
blob_or_nil (err e) = []

-- What a successful Seal has gone through.
record IsSealed (lib : Lib) (s : Secret) (key : PublicKey) (euid_bytes box_bytes : Str)
    (euid sealed : Str) : Type 0 where
  body : Str
  valid : validate lib.engine lib.map_order s ≡ ok tt
  stamped : stamp s.euid euid_bytes ≡ ok euid
  marshalled : lib.codec.marshal (record s { euid = euid }) ≡ some body
  boxed : lib.crypto.seal_anonymous body key box_bytes ≡ some sealed

or_error-eq-ok {ℓ κ} :
    {E : Type ℓ} {A : Type κ} (e : E) (o : Option A) {a : A} → or_error e o ≡ ok a → o ≡ some a
or_error-eq-ok e none h = cc
or_error-eq-ok e (some a) h = cc

seal_body-IsSealed :
    (lib : Lib) (s : Secret) (key : PublicKey) (euid_bytes box_bytes : Str) {euid sealed : Str}
    → seal_body lib s key euid_bytes box_bytes ≡ ok (euid, sealed)
    → IsSealed lib s key euid_bytes box_bytes euid sealed
unfolding seal_body
seal_body-IsSealed lib s key euid_bytes box_bytes {euid} {sealed} h =
    let (_, valid, h1) =
      >>=-eq-ok (wrap SealFailure.invalid (validate lib.engine lib.map_order s)) _ h in
    let (euid', stamped, h2) = >>=-eq-ok (stamp s.euid euid_bytes) _ h1 in
    let (body, marshalled, h3) =
      >>=-eq-ok
        (or_error SealFailure.marshal_failed (lib.codec.marshal (record s { euid = euid' }))) _
        h2 in
    let (sealed', boxed, h4) =
      >>=-eq-ok (or_error SealFailure.box_failed (lib.crypto.seal_anonymous body key box_bytes)) _
        h3 in
    let e1 : euid' ≡ euid = cc h4 in
    let e2 : sealed' ≡ sealed = cc h4 in
    record {
      body = body;
      valid = wrap-eq-ok SealFailure.invalid (validate lib.engine lib.map_order s) valid;
      stamped = rw e1 at stamped;
      marshalled =
          subst (λ t. lib.codec.marshal (record s { euid = t }) ≡ some body) e1
            (or_error-eq-ok _ _ marshalled);
      boxed = rw e2 at (or_error-eq-ok _ _ boxed);
    }

-- The caller's secret after a call that returned `r`.
abbrev pub IsLeft : Secret → Secret → Result SealFailure Str → Type 0
IsLeft s after (err e) = after ≡ s
IsLeft s after (ok blob) = (after ≡ record s { euid = after.euid }) × (s.euid ≢ [] → after ≡ s)

stamp_kept : (euid random : Str) {got : Str} → euid ≢ [] → stamp euid random ≡ ok got → got ≡ euid
stamp_kept [] random n h = absurd (n refl)
stamp_kept (c ∷ euid) random n h = cc

finish_seal-IsLeft :
    (s : Secret) (r : Result SealFailure (Str × Str))
    → ((euid sealed : Str) → r ≡ ok (euid, sealed) → s.euid ≢ [] → euid ≡ s.euid)
    → IsLeft s (finish_seal s r).1 (finish_seal s r).0
finish_seal-IsLeft s (ok (euid, sealed)) kept =
    (refl, λ n. ap (λ t. let r : Secret = record s { euid = t } in r) (kept euid sealed refl n))
finish_seal-IsLeft s (err e) kept = refl

-- If Seal fails, at whatever step, the caller's secret is as it was; if it succeeds, nothing but the
-- identifier differs, and that too is as it was if there was one.
pub seal-IsLeft :
    (lib : Lib) (s : Secret) (key : PublicKey) (euid_bytes box_bytes : Str)
    → IsLeft s (seal lib s key euid_bytes box_bytes).1 (seal lib s key euid_bytes box_bytes).0
unfolding seal
seal-IsLeft lib s key euid_bytes box_bytes =
    finish_seal-IsLeft s (seal_body lib s key euid_bytes box_bytes) λ euid sealed e n.
      stamp_kept s.euid euid_bytes n (seal_body-IsSealed lib s key euid_bytes box_bytes e).stamped

validate-euid :
    (lib : Lib) (s : Secret) (euid : Str)
    → validate lib.engine lib.map_order s ≡ ok tt
    → validate lib.engine lib.map_order (record s { euid = euid }) ≡ ok tt
unfolding validate
validate-euid lib s euid h = h

open_plain-primary :
    (c : Crypto) (raw plain : Str) (k : PrivateKey) (ks : List PrivateKey)
    → c.open_anonymous raw (c.public_of k) k ≡ some plain
    → open_plain c raw k ks ≡ some (plain, false)
unfolding open_plain try_open
open_plain-primary c raw plain k ks opens = ground arith

open_seal-encode :
    (lib : Lib) (s : Secret) (k : PrivateKey) (ks : List PrivateKey) (sealed body : Str)
    → All IsByte sealed
    → lib.crypto.open_anonymous sealed (lib.crypto.public_of k) k ≡ some body
    → lib.codec.unmarshal body ≡ some s
    → validate lib.engine lib.map_order s ≡ ok tt
    → open_seal lib (Base64.encode sealed) k ks ≡ ok (s, false)
unfolding open_seal
open_seal-encode lib s k ks sealed body b opens reads valid = rw (
  Base64.decode-encode sealed b,
  open_plain-primary lib.crypto sealed body k ks opens,
  reads,
  valid,
)

-- A sealed message is not empty: a sealed box begins with a public key.
abbrev pub HasOverhead : Crypto → Type 0
HasOverhead c =
    (message : Str) (key : PublicKey) (random sealed : Str)
    → c.seal_anonymous message key random ≡ some sealed
    → sealed ≢ []

-- The blob of a successful Seal is the base64 form of a sealed message.
pub seal-blob :
    (lib : Lib) (s after : Secret) (k : PrivateKey) (euid_bytes box_bytes blob : Str)
    → IsCorrectBox lib.crypto
    → HasOverhead lib.crypto
    → seal lib s (lib.crypto.public_of k) euid_bytes box_bytes ≡ (ok blob, after)
    → (sealed : Str) × (blob ≡ Base64.encode sealed) × (sealed ≢ []) × All IsByte sealed
unfolding seal
seal-blob lib s after k euid_bytes box_bytes blob box full h =
    elim (Result-cases (seal_body lib s (lib.crypto.public_of k) euid_bytes box_bytes)) [
      | inl ((euid, sealed), e) ↦
          let w = seal_body-IsSealed lib s (lib.crypto.public_of k) euid_bytes box_bytes e in
          let h' = rw (e, finish_seal) at h in
          (
            sealed,
            sym (ap (λ r. blob_or_nil r.0) h'),
            full w.body (lib.crypto.public_of k) box_bytes sealed w.boxed,
            (box w.body k box_bytes sealed w.boxed).1,
          )
      | inr (failure, e) ↦ absurd (ground arith)
    ]

-- Open gives back what Seal sealed, with its identifier, under the key whose public half sealed it
-- and whatever the fallback keys, if the box is correct and the codec reads back what it wrote.
pub open_seal-seal :
    (lib : Lib) (s after : Secret) (k : PrivateKey) (ks : List PrivateKey)
    (euid_bytes box_bytes blob : Str)
    → IsCorrectBox lib.crypto
    → ReadsBack lib.codec after
    → seal lib s (lib.crypto.public_of k) euid_bytes box_bytes ≡ (ok blob, after)
    → open_seal lib blob k ks ≡ ok (after, false)
unfolding seal
open_seal-seal lib s after k ks euid_bytes box_bytes blob box reads h =
    elim (Result-cases (seal_body lib s (lib.crypto.public_of k) euid_bytes box_bytes)) [
      | inl ((euid, sealed), e) ↦
          let w = seal_body-IsSealed lib s (lib.crypto.public_of k) euid_bytes box_bytes e in
          let (opens, in_bytes) = box w.body k box_bytes sealed w.boxed in
          let h' = rw (e, finish_seal) at h in
          let blob_eq = ap (λ r. blob_or_nil r.0) h' in
          let after_eq = ap (λ r. r.1) h' in
          let reads' = subst (λ t. ReadsBack lib.codec t) (sym after_eq) reads in
          rw (← blob_eq, ← after_eq)
            (open_seal-encode lib (record s { euid = euid }) k ks sealed w.body in_bytes opens
              (reads' w.body w.marshalled) (validate-euid lib s euid w.valid))
      | inr (failure, e) ↦ absurd (ground arith)
    ]
