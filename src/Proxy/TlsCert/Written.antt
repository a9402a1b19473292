-- ===== src/Proxy/TlsCert/Written.antt =====
-- The two files that a successful run has written.
use secretproxy.Prelude.{
  ℕ, ◌≡◌, ◌≢◌, refl, sym, ap, ◌∙◌, inl, inr, not, Bool-cases, Option, none, some, List, arith,
  Result, ok, err, refuse_if, >>=-eq-ok,
}
use secretproxy.Text.{Str}
use secretproxy.Text.Laws.{str_eq_refl, str_eq_iff}
use secretproxy.Proxy.TlsCert.{
  dev_cert_common_name, Template, CertLib, Files, Setting, CertError, directory_not_made,
  no_key_pair, no_serial, not_created, overwritten, write_file, template, mint, certificate_type,
  key_type, write_key, write_pair, wanted,
}

write_file_self :
    (path content : Str) (mode : ℕ) (files : Files)
    → write_file path content mode files path ≡ some (overwritten content mode (files path))
unfolding write_file
write_file_self path content mode files = rw (str_eq_refl path)

write_file_other :
    (path content other : Str) (mode : ℕ) (files : Files)
    → path ≢ other
    → write_file path content mode files other ≡ files other
unfolding write_file
write_file_other path content other mode files n = ground (arith, str_eq_iff path other)

wanted-some : {A : Type 0} (e : CertError) (o : Option A) (a : A) → wanted e o ≡ ok a → o ≡ some a
wanted-some e none a h = cc
wanted-some e (some b) a h = cc

-- What was minted is a certificate made from the template.
abbrev pub IsMinted : CertLib → Str → Type 0
IsMinted lib der =
    (t : Template) × (public : Str) × (private : Str) × (lib.create_certificate t public private
      ≡ some der)
    × (t.common_name ≡ dev_cert_common_name)

minted_der :
    {a b c d : Str} → (let x : Result CertError (Str × Str) = ok (a, c) in x ≡ ok (b, d)) → a ≡ b
minted_der h = cc

pub mint-IsMinted :
    (lib : CertLib) (os : Setting) (dir : Str) (sans : List Str) (der private : Str)
    → mint lib os dir sans ≡ ok (der, private)
    → IsMinted lib der
unfolding mint template
mint-IsMinted lib os dir sans der private h =
    let (_, _, h0) = >>=-eq-ok (refuse_if (not (os.mkdir_all dir)) directory_not_made) _ h in
    let (keys, _, h1) = >>=-eq-ok (wanted no_key_pair os.key_pair) _ h0 in
    let (serial, _, h2) = >>=-eq-ok (wanted no_serial os.serial) _ h1 in
    let t = template lib os.now serial sans in
    let made = lib.create_certificate t keys.0 keys.1 in
    let (der', e, h3) = >>=-eq-ok (wanted not_created made) _ h2 in
    let same : der' ≡ der = minted_der h3 in
    (t, keys.0, keys.1, wanted-some not_created made der (rw same at e), refl)

abbrev IsWrittenPair : CertLib → Files → (cert_path key_path der key_der : Str) → Files → Type 0
IsWrittenPair lib files cert_path key_path der key_der after =
    after
    ≡ write_file key_path (lib.pem_encode key_type key_der) 0o600
        (write_file cert_path (lib.pem_encode certificate_type der) 0o644 files)

write_key-written :
    (lib : CertLib) (os : Setting) (cert_path key_path cert key : Str) (k : Option Str)
    (files after : Files)
    → write_key lib os cert_path key_path k files ≡ (ok (cert, key), after)
    → (key_der : Str) × (cert ≡ cert_path)
      × (key ≡ key_path)
      × (after ≡ write_file key_path (lib.pem_encode key_type key_der) 0o600 files)
write_key-written lib os cert_path key_path cert key none files after h = cc
write_key-written lib os cert_path key_path cert key (some der) files after h =
    elim (Bool-cases (os.writable key_path)) [
      | inl can ↦ (der, ground arith, ground arith, ground arith)
      | inr cannot ↦ ground arith
    ]

pub write_pair-written :
    (lib : CertLib) (os : Setting) (cert_path key_path cert key : Str)
    (r : Result CertError (Str × Str)) (files after : Files)
    → write_pair lib os cert_path key_path r files ≡ (ok (cert, key), after)
    → (der : Str) × (private : Str) × (key_der : Str) × (r ≡ ok (der, private))
      × (cert ≡ cert_path)
      × (key ≡ key_path)
      × IsWrittenPair lib files cert_path key_path der key_der after
write_pair-written lib os cert_path key_path cert key (err e) files after h = cc
write_pair-written lib os cert_path key_path cert key (ok (der, private)) files after h =
    elim (Bool-cases (os.writable cert_path)) [
      | inl can ↦
          let (key_der, e, e', w) =
            write_key-written lib os cert_path key_path cert key (lib.marshal_private_key private)
              (write_file cert_path (lib.pem_encode certificate_type der) 0o644 files) after
              (ground arith) in
          (der, private, key_der, refl, e, e', w)
      | inr cannot ↦ ground arith
    ]

pub pair_read :
    (lib : CertLib) (files after : Files) (cert key der key_der : Str)
    → IsWrittenPair lib files cert key der key_der after
    → cert ≢ key
    → (after cert ≡ some (overwritten (lib.pem_encode certificate_type der) 0o644 (files cert)))
      × (after key ≡ some (overwritten (lib.pem_encode key_type key_der) 0o600 (files key)))
      × ((path : Str) → path ≢ cert → path ≢ key → after path ≡ files path)
pair_read lib files after cert key der key_der written apart =
    let text = lib.pem_encode certificate_type der in
    let key_text = lib.pem_encode key_type key_der in
    let first = write_file cert text 0o644 files in
    rw written (
      write_file_other key key_text cert 0o600 first (λ e. apart (sym e))
          ∙ write_file_self cert text 0o644 files,
      write_file_self key key_text 0o600 first
          ∙ ap (λ old. some (overwritten key_text 0o600 old))
              (write_file_other cert text key 0o644 files apart),
      λ path n m.
          write_file_other key key_text path 0o600 first (λ e. m (sym e))
          ∙ write_file_other cert text path 0o644 files (λ e. n (sym e)),
    )
