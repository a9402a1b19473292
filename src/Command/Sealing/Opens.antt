-- ===== src/Command/Sealing/Opens.antt =====
-- What the seal command prints is opened by the server as the secret that the flags ask for.
use secretproxy.Prelude.{
  ◌≢◌, [], All, wrap-eq-ok, refuse_if-eq-ok, ◌≡◌, refl, ap, ◌∙◌, ◌⊎◌, inl, inr, true, false, not,
  ◌&&◌, none, some, List, arith, Bool-cases, is_empty, Result, ok, err, refuse_if, wrap, >>=-eq-ok,
}
use secretproxy.Text.{Str, codes, Unicode, str_eq}
use secretproxy.Seal.{PrivateKey, PublicKey, BearerAuth, Secret}
use secretproxy.Seal.Envelope.{Lib, SealFailure, hash_bearer, seal, open_seal, verify_bearer}
use secretproxy.Seal.Envelope.Opening.{IsDigest, verify_bearer-hash_bearer}
use secretproxy.Seal.Envelope.Sealing.{
  IsCorrectBox, ReadsBack, IsLeft, seal-IsLeft, HasOverhead, seal-blob, open_seal-seal,
}
use secretproxy.Encoding.Base64
use secretproxy.Encoding.Hex.{IsByte}
use secretproxy.Command.{System, ResolveKeyError, resolve_public_key}
use secretproxy.Command.Sealing.{
  SealFlags, Printed, token_flag_required, unsupported_processor, auth_flags_exclusive,
  auth_flag_required, no_public_key, bearer_of, secret_of, printed, run_seal,
}

key_of :
    {r : Result ResolveKeyError PublicKey} {key other : PublicKey}
    → r ≡ ok key
    → r ≡ ok other
    → key ≡ other
key_of e h = cc

module _ ⦃u : Unicode⦄ where
  -- The secret that the flags ask for, with the identifier that was printed.
  abbrev pub asked_for : Lib → SealFlags → Printed → Secret
  asked_for lib f p = record (secret_of lib.crypto f) { euid = p.euid }

  printed-sealed :
      (s : Secret) (r : Result SealFailure Str × Secret) (p : Printed)
      → IsLeft s r.1 r.0
      → printed r ≡ ok p
      → r ≡ (ok p.blob, record s { euid = p.euid })
  printed-sealed s (ok blob, after) p (same, _) h =
      let same_blob : blob ≡ p.blob = cc in
      let same_euid : after.euid ≡ p.euid = cc in
      ap (λ b. let x : Result SealFailure Str × Secret = (ok b, after) in x) same_blob
      ∙ ap (λ a. let x : Result SealFailure Str × Secret = (ok p.blob, a) in x)
          (same ∙ ap (λ t. let x : Secret = record s { euid = t } in x) same_euid)
  printed-sealed s (err e, after) p left h = cc

  bearer_of_lem :
      (lib : Lib) (f : SealFlags)
      → IsDigest lib.crypto
      → not (is_empty f.auth_bearer) && f.without_auth ≡ false
      → not f.without_auth && is_empty f.auth_bearer ≡ false
      → ((f.without_auth ≡ true) × (bearer_of lib.crypto f ≡ none))
        ⊎ ((b : BearerAuth) × (bearer_of lib.crypto f ≡ some b)
            × (verify_bearer lib.crypto b f.auth_bearer ≡ true))
  bearer_of_lem lib f digest one some_auth = elim (Bool-cases f.without_auth) [
    | inl on ↦ inl (on, ground arith)
    | inr off ↦
        let given : is_empty f.auth_bearer ≡ false = ground arith in
        inr (
          record { digest = hash_bearer lib.crypto f.auth_bearer },
          rw (off, given),
          (verify_bearer-hash_bearer lib.crypto f.auth_bearer f.auth_bearer digest).1 refl,
        )
  ]

  -- What the checks of the command have made sure of when it prints.
  record IsChecked (lib : Lib) (f : SealFlags) (k : PrivateKey) (euid_bytes box_bytes : Str)
      (p : Printed) : Type 0 where
    one : not (is_empty f.auth_bearer) && f.without_auth ≡ false
    some_auth : not f.without_auth && is_empty f.auth_bearer ≡ false
    sealed :
        seal lib (secret_of lib.crypto f) (lib.crypto.public_of k) euid_bytes box_bytes
        ≡ (ok p.blob, asked_for lib f p)

  run_seal-IsChecked :
      (lib : Lib) (os : System) (f : SealFlags) (k : PrivateKey) (euid_bytes box_bytes : Str)
      (p : Printed)
      → resolve_public_key os f.public_key f.public_key_url ≡ ok (lib.crypto.public_of k)
      → run_seal lib os f euid_bytes box_bytes ≡ ok p
      → IsChecked lib f k euid_bytes box_bytes p
  unfolding run_seal
  run_seal-IsChecked lib os f k euid_bytes box_bytes p resolved h =
      let (_, e0, h0) = >>=-eq-ok (refuse_if (is_empty f.token) token_flag_required) _ h in
      let other = not (str_eq f.processor (codes "inject-header")) in
      let (_, e1, h1) = >>=-eq-ok (refuse_if other unsupported_processor) _ h0 in
      let both = not (is_empty f.auth_bearer) && f.without_auth in
      let (_, e2, h2) = >>=-eq-ok (refuse_if both auth_flags_exclusive) _ h1 in
      let resolving = resolve_public_key os f.public_key f.public_key_url in
      let (key, e3, h3) = >>=-eq-ok (wrap no_public_key resolving) _ h2 in
      let same = key_of (wrap-eq-ok no_public_key resolving e3) resolved in
      let neither = not f.without_auth && is_empty f.auth_bearer in
      let (_, e4, h4) = >>=-eq-ok (refuse_if neither auth_flag_required) _ h3 in
      let secret = secret_of lib.crypto f in
      record {
        one = refuse_if-eq-ok both auth_flags_exclusive e2;
        some_auth = refuse_if-eq-ok neither auth_flag_required e4;
        sealed = rw (← same) (
            printed-sealed secret (seal lib secret key euid_bytes box_bytes) p
              (seal-IsLeft lib secret key euid_bytes box_bytes) h4);
      }

  -- If the seal command prints a blob for the public key of a server, the server opens it as the secret
  -- that the flags ask for, with the identifier that was printed; and either the flags ask for no
  -- authorisation, or the secret's digest accepts the bearer that was given. The box is taken to be
  -- correct, SHA-256 to give 32 bytes, and the codec to read back this secret.
  pub run_seal-opens :
      (lib : Lib) (os : System) (f : SealFlags) (k : PrivateKey) (ks : List PrivateKey)
      (euid_bytes box_bytes : Str) (p : Printed)
      → IsCorrectBox lib.crypto
      → IsDigest lib.crypto
      → ReadsBack lib.codec (asked_for lib f p)
      → resolve_public_key os f.public_key f.public_key_url ≡ ok (lib.crypto.public_of k)
      → run_seal lib os f euid_bytes box_bytes ≡ ok p
      → (open_seal lib p.blob k ks ≡ ok (asked_for lib f p, false))
        × (((f.without_auth ≡ true) × (bearer_of lib.crypto f ≡ none))
            ⊎ ((b : BearerAuth) × (bearer_of lib.crypto f ≡ some b)
                × (verify_bearer lib.crypto b f.auth_bearer ≡ true)))
  run_seal-opens lib os f k ks euid_bytes box_bytes p box digest reads resolved h =
      let c = run_seal-IsChecked lib os f k euid_bytes box_bytes p resolved h in
      (
        open_seal-seal lib (secret_of lib.crypto f) (asked_for lib f p) k ks euid_bytes box_bytes
            p.blob box reads c.sealed,
        bearer_of_lem lib f digest c.one c.some_auth,
      )

  -- The blob that is printed is the base64 form of a sealed message.
  pub run_seal-blob :
      (lib : Lib) (os : System) (f : SealFlags) (k : PrivateKey) (euid_bytes box_bytes : Str)
      (p : Printed)
      → IsCorrectBox lib.crypto
      → HasOverhead lib.crypto
      → resolve_public_key os f.public_key f.public_key_url ≡ ok (lib.crypto.public_of k)
      → run_seal lib os f euid_bytes box_bytes ≡ ok p
      → (sealed : Str) × (p.blob ≡ Base64.encode sealed) × (sealed ≢ []) × All IsByte sealed
  run_seal-blob lib os f k euid_bytes box_bytes p box full resolved h =
      seal-blob lib (secret_of lib.crypto f) (asked_for lib f p) k euid_bytes box_bytes p.blob box
        full (run_seal-IsChecked lib os f k euid_bytes box_bytes p resolved h).sealed
