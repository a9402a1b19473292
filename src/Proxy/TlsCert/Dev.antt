-- ===== src/Proxy/TlsCert/Dev.antt =====
-- What gen-tls-cert leaves behind.
use secretproxy.Prelude.{
  ℕ, ◌≡◌, ◌≢◌, refl, sym, ap, ◌∙◌, inl, inr, true, false, Option, none, some, Option-cases, List,
  [], ◌∷◌, arith, ok, is_empty,
}
use secretproxy.Text.{Str, codes}
use secretproxy.Text.Laws.{str_eq_refl}
use secretproxy.Proxy.TlsCert.{
  dev_cert_common_name, Template, CertLib, File, Files, Setting, overwritten, out_dir_or, mint,
  certificate_type, key_type, generate_self_signed_tls, load_cert, read_file, is_dev_cert,
}
use secretproxy.Proxy.TlsCert.Written.{IsMinted, mint-IsMinted, write_pair-written, pair_read}

-- What the libraries promise: a PEM block of a certificate is read back; a certificate that was made with the
-- development name is parsed as one with that name; and two names in one directory are two paths, neither of them empty.
abbrev pub IsFaithful : CertLib → Type 0
IsFaithful lib =
    ((bytes : Str)
      → lib.pem_decode (lib.pem_encode certificate_type bytes) ≡ some (certificate_type, bytes))
    × ((t : Template) (public private der : Str)
        → t.common_name ≡ dev_cert_common_name
        → lib.create_certificate t public private ≡ some der
        → (c : Template) × (lib.parse_certificate der ≡ some c) × (c.common_name ≡ t.common_name))
    × ((dir : Str) → lib.join dir (codes "cert.pem") ≢ lib.join dir (codes "key.pem"))
    × ((dir : Str) → lib.join dir (codes "cert.pem") ≢ [])
    × ((dir : Str) → lib.join dir (codes "key.pem") ≢ [])

-- A certificate that was minted is a development certificate, whatever its file may have been before.
minted-dev :
    (lib : CertLib) (files after : Files) (cert_path der : Str)
    → IsFaithful lib
    → IsMinted lib der
    → ((f : File) → files cert_path ≡ some f → f.readable ≡ true)
    → after cert_path
      ≡ some (overwritten (lib.pem_encode certificate_type der) 0o644 (files cert_path))
    → is_dev_cert lib after cert_path ≡ true
unfolding is_dev_cert read_file
minted-dev lib files after cert_path der faithful (t, public, private, made, named) legible found =
    let (c, parsed, same) = faithful.1 t public private der named made in
    let spelled = str_eq_refl dev_cert_common_name in
    elim (Option-cases (files cert_path)) [
      | inl fresh ↦ rw found (
          rw fresh (
            rw (faithful.0 der)
              (rw (str_eq_refl certificate_type) (rw parsed (rw same (rw named spelled))))))
      | inr (old, there) ↦ rw found (
          rw there (
            rw (legible old there) (
              rw (faithful.0 der)
                (rw (str_eq_refl certificate_type) (rw parsed (rw same (rw named spelled)))))))
    ]

load_cert-written :
    (after : Files) (cert key : Str) (f g : File)
    → after cert ≡ some f
    → after key ≡ some g
    → load_cert after cert key ≡ ok (cert, key)
unfolding load_cert
load_cert-written after cert key f g h k = rw h (rw k refl)

kept_mode :
    (content : Str) (mode : ℕ) (before : Option File)
    → (before ≡ none → (overwritten content mode before).mode ≡ mode)
      × ((old : File) → before ≡ some old → (overwritten content mode before).mode ≡ old.mode)
kept_mode content mode none = (λ e. refl, λ old e. cc)
kept_mode content mode (some f) = (λ e. cc, λ old e. ground arith)

-- A run of gen-tls-cert that succeeds, and finds no cert.pem before it or one that may be read, leaves the
-- two files it names, which LoadCert finds, and a certificate that IsDevCert knows; it writes no other file. The key's file has the permissions 0600 if
-- there was none, and keeps its own if there was one.
pub generated_loads :
    (lib : CertLib) (os : Setting) (out_dir : Str) (sans : List Str) (files after : Files)
    (cert key : Str)
    → IsFaithful lib
    → ((f : File) → files cert ≡ some f → f.readable ≡ true)
    → generate_self_signed_tls lib os out_dir sans files ≡ (ok (cert, key), after)
    → (load_cert after cert key ≡ ok (cert, key))
      × (is_dev_cert lib after cert ≡ true)
      × ((path : Str) → path ≢ cert → path ≢ key → after path ≡ files path)
      × ((f : File) × (after key ≡ some f)
          × (files key ≡ none → f.mode ≡ 0o600)
          × ((old : File) → files key ≡ some old → f.mode ≡ old.mode))
unfolding generate_self_signed_tls
generated_loads lib os out_dir sans files after cert key faithful legible h =
    let dir = out_dir_or out_dir in
    let cert_path = lib.join dir (codes "cert.pem") in
    let key_path = lib.join dir (codes "key.pem") in
    let (der, private, key_der, made, same, same', written) =
      write_pair-written lib os cert_path key_path cert key (mint lib os dir sans) files after h in
    let paths : cert ≢ key = λ e. faithful.2 dir (sym same ∙ e ∙ same') in
    let read = pair_read lib files after cert key der key_der (rw same (rw same' written)) paths in
    let minted = mint-IsMinted lib os dir sans der private made in
    let key_text = lib.pem_encode key_type key_der in
    let modes = kept_mode key_text 0o600 (files key) in
    (
      load_cert-written after cert key _ _ read.0 read.1,
      minted-dev lib files after cert der faithful minted legible read.0,
      read.2,
      (overwritten key_text 0o600 (files key), read.1, modes.0, modes.1),
    )

filled : (s : Str) → s ≢ [] → is_empty s ≡ false
filled [] n = absurd (n refl)
filled (c ∷ s) n = refl

-- The two paths that are printed are no empty ones.
pub paths-given :
    (lib : CertLib) (os : Setting) (out_dir : Str) (sans : List Str) (files after : Files)
    (cert key : Str)
    → IsFaithful lib
    → generate_self_signed_tls lib os out_dir sans files ≡ (ok (cert, key), after)
    → (is_empty cert ≡ false) × (is_empty key ≡ false)
unfolding generate_self_signed_tls
paths-given lib os out_dir sans files after cert key faithful h =
    let dir = out_dir_or out_dir in
    let cert_path = lib.join dir (codes "cert.pem") in
    let key_path = lib.join dir (codes "key.pem") in
    let (der, private, key_der, made, same, same', written) =
      write_pair-written lib os cert_path key_path cert key (mint lib os dir sans) files after h in
    (
      ap is_empty same ∙ filled cert_path (faithful.3 dir),
      ap is_empty same' ∙ filled key_path (faithful.4 dir),
    )
