-- ===== src/Proxy/TlsCert.antt =====
-- tlscert.go: the development certificate that gen-tls-cert writes, and what serve asks about the files of a
-- certificate. The files are a state that is passed on; crypto/x509, encoding/pem, net.ParseIP and
-- filepath.Join are parameters.
pub mod Written
pub mod Dev
use secretproxy.Prelude.{
  ℕ, ◌+◌, ◌-◌, ◌*◌, Bool, true, false, ◌&&◌, not, Option, none, some, List, [], ◌∷◌, ◌++◌,
  if◌then◌else◌, is_empty, Result, ok, err, ◌>>=◌, ◌>>◌, refuse_if,
}
use secretproxy.Text.{Str, codes, str_eq}

abbrev pub dev_cert_common_name : Str
dev_cert_common_name = codes "secret-proxy-dev"

-- The parts of x509.Certificate that the code sets; the times are in seconds.
pub record Template : Type 0 where
  pub serial_number : ℕ
  pub common_name : Str
  pub not_before : ℕ
  pub not_after : ℕ
  pub dns_names : List Str
  pub ip_addresses : List Str

-- An address is the text of its bytes. CreateCertificate signs the template by itself, with the private key.
pub record CertLib : Type 0 where
  pub parse_ip : Str → Option Str
  pub create_certificate : Template → (public private : Str) → Option Str
  pub parse_certificate : Str → Option Template
  pub marshal_private_key : Str → Option Str
  pub pem_encode : (block_type bytes : Str) → Str
  pub pem_decode : Str → Option (Str × Str)
  pub join : Str → Str → Str

-- A file, its permissions, and whether this process may read it.
pub record File : Type 0 where
  pub content : Str
  pub mode : ℕ
  pub readable : Bool

abbrev pub Files : Type 0
Files = Str → Option File

-- Whether MkdirAll makes the directory and WriteFile writes the file; the key pair and the serial number
-- that are drawn; and the time.
pub record Setting : Type 0 where
  pub mkdir_all : Str → Bool
  pub writable : Str → Bool
  pub key_pair : Option (Str × Str)
  pub serial : Option ℕ
  pub now : ℕ

pub data CertError : Type 0 where
  directory_not_made no_key_pair no_serial not_created not_marshalled : CertError
  not_written : (path : Str) → CertError

abbrev pub overwritten : (content : Str) (mode : ℕ) → Option File → File
overwritten content mode none = record { content = content; mode = mode; readable = true }
overwritten content mode (some old) = record old { content = content }

-- os.WriteFile: the permissions are those of a file that it makes.
unfoldable pub write_file : Str → (content : Str) (mode : ℕ) → Files → Files
write_file path content mode files other =
    if str_eq path other then some (overwritten content mode (files path)) else files other

-- The loop over the extra names.
abbrev add_san : Option Str → Str → List Str × List Str → List Str × List Str
add_san (some ip) san (names, ips) = (names, ips ++ ip ∷ [])
add_san none san (names, ips) = (names ++ san ∷ [], ips)

pub add_sans : CertLib → List Str → List Str × List Str → List Str × List Str
add_sans lib [] found = found
add_sans lib (san ∷ sans) found = add_sans lib sans (add_san (lib.parse_ip san) san found)

abbrev listed : Option Str → List Str
listed none = []
listed (some ip) = ip ∷ []

abbrev pub out_dir_or : Str → Str
out_dir_or dir = if is_empty dir then codes "." else dir

abbrev hour : ℕ
hour = 60 * 60

unfoldable pub template : CertLib → (now serial : ℕ) → List Str → Template
template lib now serial sans =
    let (names, ips) = add_sans lib sans (
      codes "localhost" ∷ [],
      listed (lib.parse_ip (codes "127.0.0.1")) ++ listed (lib.parse_ip (codes "::1")),
    ) in
    record {
      serial_number = serial;
      common_name = dev_cert_common_name;
      not_before = now - hour;
      not_after = now + 90 * 24 * hour;
      dns_names = names;
      ip_addresses = ips;
    }

abbrev wanted {ℓ} : {A : Type ℓ} → CertError → Option A → Result CertError A
wanted e none = err e
wanted e (some a) = ok a

abbrev pub certificate_type : Str
certificate_type = codes "CERTIFICATE"

abbrev pub key_type : Str
key_type = codes "PRIVATE KEY"

-- The certificate's bytes and the private key, before a file is written.
unfoldable pub mint : CertLib → Setting → (dir : Str) → List Str → Result CertError (Str × Str)
mint lib os dir sans = do
  refuse_if (not (os.mkdir_all dir)) directory_not_made
  (public, private) ← wanted no_key_pair os.key_pair
  serial ← wanted no_serial os.serial
  der ← wanted not_created (lib.create_certificate (template lib os.now serial sans) public private)
  ok (der, private)

abbrev write_key :
    CertLib
    → Setting
    → (cert_path key_path : Str) → Option Str
    → Files
    → Result CertError (Str × Str) × Files
write_key lib os cert_path key_path none files = (err not_marshalled, files)
write_key lib os cert_path key_path (some key_der) files =
    if os.writable key_path
    then (
      ok (cert_path, key_path),
      write_file key_path (lib.pem_encode key_type key_der) 0o600 files,
    )
    else (err (not_written key_path), files)

abbrev write_pair :
    CertLib
    → Setting
    → (cert_path key_path : Str) → Result CertError (Str × Str)
    → Files
    → Result CertError (Str × Str) × Files
write_pair lib os cert_path key_path (err e) files = (err e, files)
write_pair lib os cert_path key_path (ok (der, private)) files =
    if os.writable cert_path
    then write_key lib os cert_path key_path (lib.marshal_private_key private)
        (write_file cert_path (lib.pem_encode certificate_type der) 0o644 files)
    else (err (not_written cert_path), files)

unfoldable pub generate_self_signed_tls :
    CertLib
    → Setting
    → (out_dir : Str) → (extra_sans : List Str) → Files
    → Result CertError (Str × Str) × Files
generate_self_signed_tls lib os out_dir extra_sans files =
    let dir = out_dir_or out_dir in
    write_pair lib os (lib.join dir (codes "cert.pem")) (lib.join dir (codes "key.pem"))
      (mint lib os dir extra_sans) files

-- Which file is missing.
pub data MissingFile : Type 0 where
  cert_file key_file : (path : Str) → MissingFile

abbrev exists : Option File → Bool
exists none = false
exists (some f) = true

pub load_cert : Files → (cert_path key_path : Str) → Result MissingFile (Str × Str)
load_cert files cert_path key_path = do
  refuse_if (not (exists (files cert_path))) (cert_file cert_path)
  refuse_if (not (exists (files key_path))) (key_file key_path)
  ok (cert_path, key_path)

pub read_file : Option File → Option Str
read_file none = none
read_file (some f) = if f.readable then some f.content else none

abbrev is_dev : Option Template → Bool
is_dev none = false
is_dev (some t) = str_eq t.common_name dev_cert_common_name

abbrev dev_block : CertLib → Option (Str × Str) → Bool
dev_block lib none = false
dev_block lib (some (block_type, bytes)) =
    if not (str_eq block_type certificate_type) then false else is_dev (lib.parse_certificate bytes)

abbrev dev_data : CertLib → Option Str → Bool
dev_data lib none = false
dev_data lib (some text) = dev_block lib (lib.pem_decode text)

pub is_dev_cert : CertLib → Files → (cert_path : Str) → Bool
is_dev_cert lib files cert_path = dev_data lib (read_file (files cert_path))
