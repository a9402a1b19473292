-- ===== src/Command/Generating/Keypair.antt =====
-- A key pair that gen-keypair prints is read back by the other commands.
use secretproxy.Prelude.{◌≡◌, ◌≢◌, refl, some, [], ◌∷◌, ◌++◌, append-nil, ok}
use secretproxy.Text.{Str, codes, Unicode}
use secretproxy.Seal.{PrivateKey, PublicKey}
use secretproxy.Seal.Keys.{private_hex, public_hex, parse_private_key, parse_public_key}
use secretproxy.Seal.Keys.RoundTrip.{IsKey, parse_key-hex, private_hex-ne-nil, public_hex-ne-nil}
use secretproxy.Command.{System, load_private_key, resolve_public_key}
use secretproxy.Command.Generating.{run_gen_keypair, generate_keypair}

module _ ⦃u : Unicode⦄ where
  parsed_private : (k : PrivateKey) → IsKey k.bytes → parse_private_key (private_hex k) ≡ ok k
  parsed_private k h = rw (append-nil (private_hex k)) at ((parse_key-hex [] [] k h refl refl).0)

  parsed_public : (k : PublicKey) → IsKey k.bytes → parse_public_key (public_hex k) ≡ ok k
  parsed_public k h =
      rw (append-nil (public_hex k)) at
        ((parse_key-hex [] [] (record { bytes = k.bytes }) h refl refl).1)

  loaded_hex :
      (os : System) (text : Str) (k : PrivateKey)
      → parse_private_key text ≡ ok k
      → text ≢ []
      → load_private_key os [] text ≡ ok k
  unfolding load_private_key
  loaded_hex os [] k h n = absurd (n refl)
  loaded_hex os (c ∷ text) k h n = rw h refl

  resolved_hex :
      (os : System) (text : Str) (k : PublicKey)
      → parse_public_key text ≡ ok k
      → text ≢ []
      → resolve_public_key os text [] ≡ ok k
  unfolding resolve_public_key
  resolved_hex os [] k h n = absurd (n refl)
  resolved_hex os (c ∷ text) k h n = rw h refl

  -- What gen-keypair prints behind its two labels is read as the pair that was drawn: the one by the
  -- commands that take a private key, the other by those that take a public key.
  pub run_gen_keypair-read :
      (os : System) (public private : Str)
      → IsKey public
      → IsKey private
      → (secret_text public_text : Str) × (run_gen_keypair (some (public, private))
          ≡ some (codes "private: " ++ secret_text, codes "public: " ++ public_text))
        × (load_private_key os [] secret_text ≡ ok (record { bytes = private }))
        × (resolve_public_key os public_text [] ≡ ok (record { bytes = public }))
  unfolding run_gen_keypair generate_keypair
  run_gen_keypair-read os public private h k =
      let sk : PrivateKey = record { bytes = private } in
      let pk : PublicKey = record { bytes = public } in
      (
        private_hex sk,
        public_hex pk,
        refl,
        loaded_hex os (private_hex sk) sk (parsed_private sk k) (private_hex-ne-nil sk k),
        resolved_hex os (public_hex pk) pk (parsed_public pk h) (public_hex-ne-nil pk h),
      )
