-- ===== src/Tests/Certificates.antt =====
-- A development certificate that is made, loaded and refused, over an older key of everyone's; and a key pair.
use secretproxy.Prelude.{
  ℕ, ◌≡◌, ◌≢◌, refl, ap, length, true, false, none, some, [], ◌∷◌, ◌++◌, arith, ok, err,
  if◌then◌else◌,
}
use secretproxy.Text.{Str, codes, str_eq}
use secretproxy.Seal.Keys.RoundTrip.{IsKey}
use secretproxy.Proxy.Body.{pull}
use secretproxy.Proxy.TlsCert.{
  Template, CertLib, File, Files, Setting, write_file, template, mint, generate_self_signed_tls,
  load_cert, is_dev_cert,
}
use secretproxy.Proxy.TlsCert.Dev.{IsFaithful, generated_loads}
use secretproxy.Command.{load_private_key, resolve_public_key}
use secretproxy.Command.Serving.{ServeFlags, check_tls, dev_cert_refused}
use secretproxy.Command.Serving.DevCert.{host_on, generated_refused}
use secretproxy.Command.Generating.{run_gen_keypair}
use secretproxy.Command.Generating.Keypair.{run_gen_keypair-read}
use secretproxy.Tests.Samples.{plain, parsers}
use secretproxy.Tests.Commands.{serve_flags, system}

-- A certificate is its common name; a block is its type, behind its length, and its bytes.
abbrev named : Str → Template
named name = record {
  serial_number = 0;
  common_name = name;
  not_before = 0;
  not_after = 0;
  dns_names = [];
  ip_addresses = [];
}

abbrev lib : CertLib
lib = record {
  parse_ip = λ s. none;
  create_certificate = λ t public private. some t.common_name;
  parse_certificate = λ der. some (named der);
  marshal_private_key = λ private. some private;
  pem_encode = λ block_type bytes. length block_type ∷ (block_type ++ bytes);
  pem_decode = λ text. elim text [ [] ↦ none | n ∷ rest ↦ some (pull n rest) ];
  join = λ dir name. dir ++ b'/' ∷ name;
}

pull-append : (s t : Str) → pull (length s) (s ++ t) ≡ (s, t)
unfolding pull
pull-append [] t = refl
pull-append (c ∷ s) t = rw (pull-append s t) refl

joined_apart : (dir : Str) → dir ++ codes "/cert.pem" ≢ dir ++ codes "/key.pem"
joined_apart [] h = cc
joined_apart (c ∷ dir) h = joined_apart dir (tail_of h)
  where
    tail_of : {a b : ℕ} {s t : Str} → (let x : Str = a ∷ s in x ≡ b ∷ t) → s ≡ t
    tail_of e = cc

joined_filled : (dir : Str) (c : ℕ) (name : Str) → dir ++ c ∷ name ≢ []
joined_filled [] c name h = cc
joined_filled (d ∷ dir) c name h = cc

lib-IsFaithful : IsFaithful lib
lib-IsFaithful = (
  λ bytes. ap some (pull-append (codes "CERTIFICATE") bytes),
  λ t public private der n e. (named der, refl, cc),
  joined_apart,
  λ dir. joined_filled dir b'/' (codes "cert.pem"),
  λ dir. joined_filled dir b'/' (codes "key.pem"),
)

abbrev setting : Setting
setting = record {
  mkdir_all = λ dir. true;
  writable = λ path. true;
  key_pair = some (codes "public", codes "private");
  serial = some 7;
  now = 1000000;
}

abbrev old_key : File
old_key = record { content = []; mode = 0o644; readable = true }

abbrev cert_path : Str
cert_path = codes "./cert.pem"

abbrev key_path : Str
key_path = codes "./key.pem"

abbrev before : Files
before path = if str_eq path key_path then some old_key else none

abbrev written : Files
written = (generate_self_signed_tls lib setting [] (codes "dev.local" ∷ []) before).1

pair_made :
    generate_self_signed_tls lib setting [] (codes "dev.local" ∷ []) before
    ≡ (ok (cert_path, key_path), written)
unfolding generate_self_signed_tls mint template write_file
pair_made = refl

nothing_before : (f : File) → before cert_path ≡ some f → f.readable ≡ true
unfolding str_eq
nothing_before f h = cc

generated_loads_example :
    (load_cert written cert_path key_path ≡ ok (cert_path, key_path))
    × (is_dev_cert lib written cert_path ≡ true)
    × ((path : Str) → path ≢ cert_path → path ≢ key_path → written path ≡ before path)
    × ((f : File) × (written key_path ≡ some f)
        × (before key_path ≡ none → f.mode ≡ 0o600)
        × ((old : File) → before key_path ≡ some old → f.mode ≡ old.mode))
generated_loads_example =
    generated_loads lib setting [] (codes "dev.local" ∷ []) before written cert_path key_path
      lib-IsFaithful nothing_before pair_made

abbrev strict_flags : ServeFlags
strict_flags = record serve_flags { tls_cert_file = cert_path; tls_key_file = key_path }

generated_refused_example :
    let checked = check_tls (host_on lib written parsers none) strict_flags in
    (strict_flags.allow_dev_cert ≡ false → checked ≡ err dev_cert_refused)
    × (strict_flags.allow_dev_cert ≡ true → checked ≡ ok tt)
generated_refused_example =
    generated_refused lib setting [] (codes "dev.local" ∷ []) before written cert_path key_path
      parsers none strict_flags lib-IsFaithful nothing_before pair_made refl refl refl

-- The key stays readable for everyone, as the file was before.
loose_key_kept :
    written key_path
    ≡ some (record { content = 11 ∷ codes "PRIVATE KEYprivate"; mode = 0o644; readable = true })
unfolding generate_self_signed_tls mint template write_file str_eq
loose_key_kept = refl

abbrev public : Str
public = codes "0123456789abcdef0123456789ABCDEF"

abbrev private : Str
private = codes "0123456789ABCDEF0123456789abcdef"

public-IsKey : IsKey public
public-IsKey = record { size = refl; in_bytes = ground arith }

private-IsKey : IsKey private
private-IsKey = record { size = refl; in_bytes = ground arith }

run_gen_keypair-read_example :
    (secret_text public_text : Str) × (run_gen_keypair (some (public, private))
      ≡ some (codes "private: " ++ secret_text, codes "public: " ++ public_text))
    × (load_private_key system [] secret_text ≡ ok (record { bytes = private }))
    × (resolve_public_key system public_text [] ≡ ok (record { bytes = public }))
run_gen_keypair-read_example = run_gen_keypair-read system public private public-IsKey private-IsKey
