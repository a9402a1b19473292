-- ===== src/Seal/Keys/RoundTrip.antt =====
-- A key is read back from its hexadecimal form, and nothing but a key is read.
use secretproxy.Prelude.{ℕ, ◌≤◌, ◌≡◌, ◌≢◌, ◌⊎◌, [], ◌∷◌, ◌++◌, arith, ==_iff, length, All, ok}
use secretproxy.Text.{Str, Unicode, trim_space, is_space}
use secretproxy.Text.Trimming.{IsPlain, IsBlank, trim_space-plain}
use secretproxy.Encoding.Hex
use secretproxy.Encoding.Hex.{IsByte}
use secretproxy.Seal.{key_len, PrivateKey, PublicKey}
use secretproxy.Seal.Keys.{of_length, private_hex, public_hex, parse_private_key, parse_public_key}

-- A key of the right length.
pub record IsKey (raw : Str) : Type 0 where
  pub size : length raw ≡ key_len
  pub in_bytes : All IsByte raw

digit-IsPlain : (c : ℕ) → ((b'0' ≤ c) × (c ≤ b'9')) ⊎ ((b'a' ≤ c) × (c ≤ b'f')) → IsPlain c
unfolding is_space
digit-IsPlain c h = ground arith

encode-IsPlain : (s : Str) → All IsByte s → All IsPlain (Hex.encode s)
encode-IsPlain s h = plain (Hex.encode s) (Hex.encode-IsHexDigit s h)
  where
    plain :
        (t : Str)
        → All (λ c. ((b'0' ≤ c) × (c ≤ b'9')) ⊎ ((b'a' ≤ c) × (c ≤ b'f'))) t
        → All IsPlain t
    plain [] _ = tt
    plain (c ∷ t) (d, ds) = (digit-IsPlain c d, plain t ds)

encode-ne-nil : (s : Str) → length s ≡ key_len → Hex.encode s ≢ []
unfolding Hex.encode
encode-ne-nil [] h = absurd (omega arith)
encode-ne-nil (c ∷ s) h = cc

pub private_hex-ne-nil : (k : PrivateKey) → IsKey k.bytes → private_hex k ≢ []
unfolding private_hex
private_hex-ne-nil k h = encode-ne-nil k.bytes h.size

pub public_hex-ne-nil : (k : PublicKey) → IsKey k.bytes → public_hex k ≢ []
unfolding public_hex
public_hex-ne-nil k h = encode-ne-nil k.bytes h.size

key_text :
    ⦃u : Unicode⦄
    → (before after raw : Str) → IsKey raw
    → IsBlank before
    → IsBlank after
    → of_length (Hex.decode (trim_space (before ++ (Hex.encode raw ++ after)))) ≡ ok raw
key_text before after raw k b a = rw (
  trim_space-plain before (Hex.encode raw) after (encode-ne-nil raw k.size)
      (encode-IsPlain raw k.in_bytes) b a,
  Hex.decode-encode raw k.in_bytes,
  (==_iff (length raw) key_len).1 k.size,
)

-- A key of 32 bytes, private or public, that is printed in hexadecimal is read back, whatever white
-- space surrounds it.
pub parse_key-hex :
    ⦃u : Unicode⦄
    → (before after : Str) (k : PrivateKey) → IsKey k.bytes
    → IsBlank before
    → IsBlank after
    → (parse_private_key (before ++ (private_hex k ++ after)) ≡ ok k)
      × (parse_public_key (before ++ (public_hex (record { bytes = k.bytes }) ++ after))
          ≡ ok (record { bytes = k.bytes }))
unfolding parse_private_key private_hex parse_public_key public_hex
parse_key-hex before after k h b a =
    (rw (key_text before after k.bytes h b a), rw (key_text before after k.bytes h b a))
