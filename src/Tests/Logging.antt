-- ===== src/Tests/Logging.antt =====
-- The log lines of the sample requests, with one token and with another.
use secretproxy.Prelude.{
  eq_of_ok, ◌≡◌, refl, sym, ap, ◌∙◌, Option, none, some, [], ◌∷◌, if◌then◌else◌, ok,
}
use secretproxy.Text.{Str, codes, str_eq}
use secretproxy.Http.{get}
use secretproxy.Seal.{auth_kind, processor_kind}
use secretproxy.Seal.Envelope.{Codec, open_seal}
use secretproxy.Proxy.Override.{Override, parse_sealed_header}
use secretproxy.Proxy.Server.{header_sealed_secret}
use secretproxy.Proxy.Forward.{fallback_keys}
use secretproxy.Proxy.Log.{
  Texts, text, texts, seal_fields, handle_forward_logged, admit_logged, proxy_sealed_logged,
}
use secretproxy.Proxy.Log.Token.{with_token, relabel, with_codec, token_unlogged}
use secretproxy.Tests.Samples.{plain, no_folding, stripe, codec, world, server, request, blob}
use secretproxy.Tests.Forwarding.{code_of}

abbrev words : Texts
words = record { cause = λ r e. none; addr_string = λ a. codes "address"; query = λ s. [] }

abbrev rotated : Str → Str
rotated token = codes "sk_live_2"

abbrev rotated_codec : Codec
rotated_codec = record {
  marshal = codec.marshal;
  unmarshal =
      λ body. if str_eq body (codes "stripe") then some (with_token rotated stripe) else none;
}

same_seal :
    open_seal
      (with_codec world rotated_codec).lib
      blob
      server.private_key
      (fallback_keys server.previous_private_key)
    ≡ relabel rotated
        (open_seal world.lib blob server.private_key (fallback_keys server.previous_private_key))
unfolding code_of
same_seal = refl

blob_read :
    parse_sealed_header world.decode_override (get request.header header_sealed_secret)
    ≡ ok (blob, none)
unfolding code_of
blob_read = refl

same_seals :
    (b : Str) (override : Option Override)
    → parse_sealed_header world.decode_override (get request.header header_sealed_secret)
      ≡ ok (b, override)
    → open_seal
        (with_codec world rotated_codec).lib
        b
        server.private_key
        (fallback_keys server.previous_private_key)
      ≡ relabel rotated
          (open_seal world.lib b server.private_key (fallback_keys server.previous_private_key))
same_seals b override h =
    let same : blob ≡ b = ap (λ p. p.0) (eq_of_ok (sym blob_read ∙ h)) in rw (← same) same_seal

token_unlogged_example :
    let x = handle_forward_logged words (with_codec world rotated_codec) server request in
    let y = handle_forward_logged words world server request in
    (x.entries ≡ y.entries) × (x.last_fields ≡ y.last_fields)
token_unlogged_example = token_unlogged words world rotated_codec rotated server request same_seals

-- The fields of the line that follows the response.
last_line :
    (handle_forward_logged words world server request).last_fields
    ≡ (codes "method", text (codes "POST"))
      ∷ (codes "host", text (codes "API.stripe.com"))
      ∷ (codes "path", text (codes "/v1/charges/ch_1"))
      ∷ (codes "query_keys", texts [])
      ∷ (codes "auth", text (codes "bearer_auth"))
      ∷ (codes "processor", text (codes "inject_header"))
      ∷ (codes "seal_euid", text (codes "e1"))
      ∷ (codes "seal_name", text (codes "stripe"))
      ∷ []
unfolding code_of handle_forward_logged proxy_sealed_logged admit_logged seal_fields auth_kind
    processor_kind
last_line = refl
