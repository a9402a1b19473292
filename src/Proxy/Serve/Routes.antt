-- ===== src/Proxy/Serve/Routes.antt =====
-- What the routes answer, and that a seal to the key that is served is opened.
use secretproxy.Prelude.{
  ◌≡◌, refl, sym, ap, ◌∙◌, ◌↔◌, inl, inr, false, ◌||◌, [], append-nil, arith, Bool-cases, Result,
  ok,
}
use secretproxy.Text.{Str, Unicode, str_eq}
use secretproxy.Text.Laws.{str_eq_iff}
use secretproxy.Seal.{PublicKey, Secret}
use secretproxy.Seal.Keys.{public_hex, parse_public_key}
use secretproxy.Seal.Keys.RoundTrip.{IsKey, parse_key-hex}
use secretproxy.Seal.Envelope.{seal, open_seal}
use secretproxy.Seal.Envelope.Sealing.{IsCorrectBox, ReadsBack, open_seal-seal}
use secretproxy.Proxy.Server.{Server, forward_path, public_key_path, health_path, ready_path}
use secretproxy.Proxy.Forward.{World, Request, Rejection, Forwarded, handle_forward, fallback_keys}
use secretproxy.Proxy.Serve.{public_key_text, forwarded, handle_public_key, serve}

module _ ⦃u : Unicode⦄ (w : World) (s : Server) (r : Request) where
  forward_answer : serve w s forward_path r ≡ forwarded (handle_forward w s r)
  unfolding serve str_eq
  forward_answer = refl

  public_key_answer :
      serve w s public_key_path r
      ≡ public_key_text (public_hex (w.lib.crypto.public_of s.private_key))
  unfolding serve handle_public_key str_eq
  public_key_answer = refl

  -- A request is forwarded, or refused by the handler, exactly on the forward endpoint.
  serve-forwarded :
      (path : Str) (answer : Result Rejection Forwarded)
      → (serve w s path r ≡ forwarded answer)
        ↔ ((path ≡ forward_path) × (answer ≡ handle_forward w s r))
  unfolding serve handle_public_key
  serve-forwarded path answer = (λ h. only path answer h, λ (same, e). rw (same, e) forward_answer)
    where
      only :
          (path : Str) (answer : Result Rejection Forwarded)
          → serve w s path r ≡ forwarded answer
          → (path ≡ forward_path) × (answer ≡ handle_forward w s r)
      only path answer h = elim (Bool-cases (str_eq path public_key_path)) [
        | inl k ↦ absurd (ground arith)
        | inr no_key ↦ elim (Bool-cases (str_eq path health_path || str_eq path ready_path)) [
          | inl k ↦ absurd (ground arith)
          | inr no_probe ↦ elim (Bool-cases (str_eq path forward_path)) [
            | inl k ↦ ((str_eq_iff path forward_path).0 k, ground arith)
            | inr no_forward ↦ absurd (ground arith)
          ]
        ]
      ]

  -- What a client reads from the public key endpoint is the server's public key, if that has 32 bytes.
  served_key_read :
      IsKey (w.lib.crypto.public_of s.private_key).bytes
      → (text : Str) × (serve w s public_key_path r ≡ public_key_text text)
        × (parse_public_key text ≡ ok (w.lib.crypto.public_of s.private_key))
  served_key_read k =
      let key = w.lib.crypto.public_of s.private_key in
      (
        public_hex key,
        public_key_answer,
        ap parse_public_key (sym (append-nil (public_hex key)))
            ∙ (parse_key-hex [] [] (record { bytes = key.bytes }) k refl refl).1,
      )

  -- A secret that was sealed to the key that is served is opened by the server's key, whether or not
  -- the server keeps a previous key, if the box is correct and the codec reads back what it wrote.
  served_key_opens :
      (secret after : Secret) (key : PublicKey) (text euid_bytes box_bytes blob : Str)
      → IsKey (w.lib.crypto.public_of s.private_key).bytes
      → IsCorrectBox w.lib.crypto
      → ReadsBack w.lib.codec after
      → serve w s public_key_path r ≡ public_key_text text
      → parse_public_key text ≡ ok key
      → seal w.lib secret key euid_bytes box_bytes ≡ (ok blob, after)
      → open_seal w.lib blob s.private_key (fallback_keys s.previous_private_key)
        ≡ ok (after, false)
  served_key_opens secret after key text euid_bytes box_bytes blob k box reads served parsed
        sealed =
      let (text', served', parsed') = served_key_read k in
      let same_text : text ≡ text' = cc in
      let same_key : key ≡ w.lib.crypto.public_of s.private_key = cc in
      open_seal-seal w.lib secret after s.private_key (fallback_keys s.previous_private_key)
        euid_bytes box_bytes blob box reads (rw (← same_key) sealed)
