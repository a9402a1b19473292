-- ===== src/Command/Serving/DevCert.antt =====
-- The development certificate and the serve command.
use secretproxy.Prelude.{
  ◌≡◌, refl, Bool, true, false, Option, some, List, Result, ok, err, is_empty,
}
use secretproxy.Text.{Str}
use secretproxy.Net.Addr.{Parsers}
use secretproxy.Proxy.TlsCert.{
  CertLib, File, Files, Setting, MissingFile, generate_self_signed_tls, load_cert, is_dev_cert,
}
use secretproxy.Proxy.TlsCert.Dev.{IsFaithful, generated_loads, paths-given}
use secretproxy.Command.Serving.{ServeFlags, Host, dev_cert_refused, check_tls}

abbrev loaded : Result MissingFile (Str × Str) → Bool
loaded (ok paths) = true
loaded (err missing) = false

-- What runServe asks of the files of a certificate, answered by the files.
abbrev pub host_on : CertLib → Files → Parsers → Option Str → Host
host_on lib files parsers hostname = record {
  parsers = parsers;
  cert_files_exist = λ cert key. loaded (load_cert files cert key);
  is_dev_cert = λ cert. is_dev_cert lib files cert;
  hostname = hostname;
}

-- The files that a run of gen-tls-cert leaves, if it found no cert.pem before it or one that may be read, are
-- refused as development material by a serve that is not behind a terminator and is given them, and are
-- accepted where --allow-dev-cert is set.
pub generated_refused :
    (lib : CertLib) (os : Setting) (out_dir : Str) (sans : List Str) (files after : Files)
    (cert key : Str) (parsers : Parsers) (hostname : Option Str) (f : ServeFlags)
    → IsFaithful lib
    → ((g : File) → files cert ≡ some g → g.readable ≡ true)
    → generate_self_signed_tls lib os out_dir sans files ≡ (ok (cert, key), after)
    → f.trust_tls_terminator ≡ false
    → f.tls_cert_file ≡ cert
    → f.tls_key_file ≡ key
    → let checked = check_tls (host_on lib after parsers hostname) f in
      (f.allow_dev_cert ≡ false → checked ≡ err dev_cert_refused)
      × (f.allow_dev_cert ≡ true → checked ≡ ok tt)
unfolding check_tls
generated_refused lib os out_dir sans files after cert key parsers hostname f faithful legible h
      plain c k =
    let found = generated_loads lib os out_dir sans files after cert key faithful legible h in
    let named = paths-given lib os out_dir sans files after cert key faithful h in
    let loads : loaded (load_cert after f.tls_cert_file f.tls_key_file) ≡ true =
      rw c (rw k (rw found.0 refl)) in
    let dev : is_dev_cert lib after f.tls_cert_file ≡ true = rw c found.1 in
    let given : is_empty f.tls_cert_file ≡ false = rw c named.0 in
    let given' : is_empty f.tls_key_file ≡ false = rw k named.1 in
    (
      λ strict. rw plain (rw given (rw given' (rw loads (rw dev (rw strict refl))))),
      λ lenient. rw plain (rw given (rw given' (rw loads (rw dev (rw lenient refl))))),
    )
