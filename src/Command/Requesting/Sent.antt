-- ===== src/Command/Requesting/Sent.antt =====
-- What the request command hands to the HTTP client.
use secretproxy.Prelude.{
  ◌≡◌, ◌≢◌, refl, ◌⊎◌, inl, inr, true, false, Bool-cases, not, ◌&&◌, Option, Option-cases, none,
  some, List, [], ◌∷◌, arith, is_empty, if◌then◌else◌, ok, wrap, wrap-eq-ok, refuse_if, eq_of_ok,
  refuse_if-eq-ok, >>=-eq-ok,
}
use mathlib.Core.Path.{subst}
use secretproxy.Text.{Str, codes, str_eq}
use secretproxy.Text.Laws.{eq_of_str_eq}
use secretproxy.Proxy.Server.{Url}
use secretproxy.Client.{
  Transport, Outgoing, with_sealed_secret, with_auth, with_proxy_tls, apply_all, new_transport,
}
use secretproxy.Command.{System}
use secretproxy.Command.Requesting.{
  RequestFlags, Response, HttpClient, RequestError, no_transport, url_required, bad_request,
  request_failed, given, request_options, run_request,
}

abbrev pub IsHttp : Str → Type 0
IsHttp scheme = (scheme ≡ codes "http") ⊎ (scheme ≡ codes "https")

abbrev IsTransport : System → RequestFlags → Transport → Type 0
IsTransport os f rt =
    (os.parse_url f.proxy_url ≡ some rt.proxy_url)
    × IsHttp rt.proxy_url.scheme
    × (rt.sealed_secret ≡ os.getenv (codes "SEALED_SECRET"))
    × (rt.auth ≡ os.getenv (codes "AUTH_TOKEN"))
    × (rt.insecure_skip_verify ≡ (if f.proxy_insecure then some true else none))

scheme-IsHttp :
    (scheme : Str)
    → not (str_eq scheme (codes "http")) && not (str_eq scheme (codes "https")) ≡ false
    → IsHttp scheme
scheme-IsHttp scheme h = elim (Bool-cases (str_eq scheme (codes "http"))) [
  | inl plain ↦ inl (eq_of_str_eq scheme (codes "http") plain)
  | inr other ↦ inr (eq_of_str_eq scheme (codes "https") (ground arith))
]

abbrev applied : System → RequestFlags → Url → Transport
applied os f u =
    apply_all (request_options os f)
      (record { insecure_skip_verify = none; proxy_url = u; sealed_secret = []; auth = [] })

options_applied :
    (os : System) (f : RequestFlags) (u : Url)
    → let rt = applied os f u in
      (rt.proxy_url ≡ u)
      × (rt.sealed_secret ≡ os.getenv (codes "SEALED_SECRET"))
      × (rt.auth ≡ os.getenv (codes "AUTH_TOKEN"))
      × (rt.insecure_skip_verify ≡ (if f.proxy_insecure then some true else none))
unfolding with_sealed_secret with_auth with_proxy_tls
options_applied os f u = elim (Bool-cases f.proxy_insecure) [
  | inl on ↦ rw on (refl, refl, refl, refl)
  | inr off ↦ rw off (refl, refl, refl, refl)
]

transport-IsTransport :
    (os : System) (f : RequestFlags) (rt : Transport)
    → new_transport os.parse_url f.proxy_url (request_options os f) ≡ ok rt
    → IsTransport os f rt
unfolding new_transport
transport-IsTransport os f rt h = elim (Option-cases (os.parse_url f.proxy_url)) [
  | inl bad ↦ absurd (ground arith)
  | inr (u, parsed) ↦
      elim (Bool-cases
        (not (str_eq u.scheme (codes "http")) && not (str_eq u.scheme (codes "https")))) [
          | inl other ↦ absurd (ground arith)
          | inr http ↦
              let made = rw (parsed, http) at h in
              let (url, blob, token, verified) = options_applied os f u in
              let found : IsTransport os f (applied os f u) =
                (rw url parsed, rw url (scheme-IsHttp u.scheme http), blob, token, verified) in
              subst (IsTransport os f) (eq_of_ok made) found
        ]
]

given-some : {A : Type 0} (e : RequestError) (o : Option A) (a : A) → given e o ≡ ok a → o ≡ some a
given-some e none a h = cc
given-some e (some b) a h = cc

given_url : (url : Str) → is_empty url ≡ false → url ≢ []
given_url [] h = cc
given_url (c ∷ url) h = λ e. cc

-- Where the request command prints an answer, a target was given, and the HTTP client sent the request for it
-- over a transport to the proxy's URL, which is one of http or https, with the blob and the bearer of the
-- environment; and the proxy's certificate is verified unless --proxy-insecure is set.
pub run_request-sent :
    (os : System) (c : HttpClient) (f : RequestFlags) (lines : List Str)
    → run_request os c f ≡ ok lines
    → (f.url ≢ [])
      × ((rt : Transport) × (req : Outgoing) × (resp : Response) × (c.new_request f.method f.url
              f.body
            ≡ some req)
          × (c.do_request rt req ≡ some resp)
          × (os.parse_url f.proxy_url ≡ some rt.proxy_url)
          × IsHttp rt.proxy_url.scheme
          × (rt.sealed_secret ≡ os.getenv (codes "SEALED_SECRET"))
          × (rt.auth ≡ os.getenv (codes "AUTH_TOKEN"))
          × (rt.insecure_skip_verify ≡ (if f.proxy_insecure then some true else none)))
unfolding run_request
run_request-sent os c f lines h =
    let (_, e0, h0) = >>=-eq-ok (refuse_if (is_empty f.url) url_required) _ h in
    let making = new_transport os.parse_url f.proxy_url (request_options os f) in
    let (rt, e1, h1) = >>=-eq-ok (wrap no_transport making) _ h0 in
    let (req, e2, h2) = >>=-eq-ok (given bad_request (c.new_request f.method f.url f.body)) _ h1 in
    let (resp, e3, h3) = >>=-eq-ok (given request_failed (c.do_request rt req)) _ h2 in
    let target = refuse_if-eq-ok (is_empty f.url) url_required e0 in
    let (parsed, http, blob, token, verified) =
      transport-IsTransport os f rt (wrap-eq-ok no_transport making e1) in
    (
      given_url f.url target,
      (
        rt,
        req,
        resp,
        given-some bad_request (c.new_request f.method f.url f.body) req e2,
        given-some request_failed (c.do_request rt req) resp e3,
        parsed,
        http,
        blob,
        token,
        verified,
      ),
    )
