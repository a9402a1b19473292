-- ===== src/Proxy/Override/Blob.antt =====
-- Reading a blob that stands alone in its header.
use secretproxy.Prelude.{ℕ, ◌<◌, ◌≡◌, ◌≢◌, refl, none, [], ◌∷◌, arith, All, ok}
use secretproxy.Text.{Str, Unicode, cut, trim_space}
use secretproxy.Text.Splitting.{Lacks}
use secretproxy.Encoding.Base64
use secretproxy.Encoding.Base64.{symbol}
use secretproxy.Encoding.Base64.Alphabet.{encode-All, encode-ne-nil}
use secretproxy.Encoding.Hex.{IsByte}
use secretproxy.Proxy.Override.{OverrideDecoder, parse_sealed_header}
use secretproxy.Proxy.Override.Bearer.{encode-IsPlain, trim_plain}

symbol_other : (n : ℕ) → n < 64 → symbol n ≢ b';'
unfolding symbol
symbol_other n h = ground arith

cut-lacking : (sep : ℕ) (s : Str) → Lacks sep s → cut sep s ≡ none
unfolding cut
cut-lacking sep [] h = refl
cut-lacking sep (c ∷ s) (n, h) = ground (arith, cut-lacking sep s h)

module _ ⦃u : Unicode⦄ (decode : OverrideDecoder) where
  alone :
      (s : Str)
      → s ≢ []
      → cut b';' s ≡ none
      → trim_space s ≡ s
      → parse_sealed_header decode s ≡ ok (s, none)
  unfolding parse_sealed_header
  alone [] n c e = absurd (n refl)
  alone (b ∷ s) n c e = rw (c, e) refl

  -- The base64 form of a sealed message is read as a blob without an override.
  pub parse_sealed_header-encode :
      (sealed : Str)
      → sealed ≢ []
      → All IsByte sealed
      → parse_sealed_header decode (Base64.encode sealed) ≡ ok (Base64.encode sealed, none)
  parse_sealed_header-encode sealed n h =
      let text = Base64.encode sealed in
      let full = encode-ne-nil sealed n in
      alone text full
        (cut-lacking b';' text (encode-All (λ c. c ≢ b';') symbol_other (omega arith) sealed h))
        (trim_plain text full (encode-IsPlain sealed h))
