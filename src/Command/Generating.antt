-- ===== src/Command/Generating.antt =====
-- main.go: the gen-tls-cert and gen-keypair commands, and GenerateKeypair of seal.go, from their flags to what
-- they print.
pub mod Keypair
use secretproxy.Prelude.{ℕ, Option, none, some, List, [], ◌∷◌, ◌++◌, Result, ok, err}
use secretproxy.Text.{Str, codes, Unicode}
use secretproxy.Seal.{PrivateKey, PublicKey}
use secretproxy.Seal.Keys.{private_hex, public_hex}
use secretproxy.Proxy.TlsCert.{CertLib, Files, Setting, CertError, generate_self_signed_tls}
use secretproxy.Command.{split_csv}

abbrev cert_lines : Result CertError (Str × Str) → Result CertError (List Str)
cert_lines (err e) = err e
cert_lines (ok (cert, key)) = ok ((codes "cert: " ++ cert) ∷ (codes "key: " ++ key) ∷ [])

unfoldable run_gen_tls_cert :
    ⦃u : Unicode⦄
    → CertLib
    → Setting
    → (out_dir san : Str) → Files
    → Result CertError (List Str) × Files
run_gen_tls_cert lib os out_dir san files =
    let (found, after) = generate_self_signed_tls lib os out_dir (split_csv san) files in
    (cert_lines found, after)

-- What box.GenerateKey draws; `none` is its error.
pub generate_keypair : Option (Str × Str) → Option (PublicKey × PrivateKey)
generate_keypair none = none
generate_keypair (some (public, private)) =
    some (record { bytes = public }, record { bytes = private })

abbrev keypair_lines : PublicKey × PrivateKey → Str × Str
keypair_lines (public, private) =
    (codes "private: " ++ private_hex private, codes "public: " ++ public_hex public)

-- The two lines.
pub run_gen_keypair : Option (Str × Str) → Option (Str × Str)
run_gen_keypair drawn = elim (generate_keypair drawn) [
  | none ↦ none
  | some pair ↦ some (keypair_lines pair)
]
