-- ===== src/Proxy/Forward/Gates.antt =====
-- What each gate of handleForward lets through.
use secretproxy.Prelude.{
  ℕ, ◌≤◌, ◌<◌, ◌≡◌, refl, ◌≢◌, ◌↔◌, ◌⊎◌, inl, inr, true, Option, none, some, [], arith, Bool-cases,
  Option-cases, is_empty, ok, refuse_if, Result-cases,
}
use secretproxy.Text.{Str, Unicode}
use secretproxy.Net.Addr.{Addr}
use secretproxy.Http.{get}
use secretproxy.Seal.{BearerAuth, NoAuth}
use secretproxy.Seal.Envelope.{verify_bearer}
use secretproxy.Proxy.Override.{extract_bearer}
use secretproxy.Proxy.Ingress.{client_ip_from_request, ip_in_prefixes}
use secretproxy.Proxy.Server.{Server, Url, header_upstream_url, header_auth_bearer}
use secretproxy.Proxy.Forward.{
  World, Request, Rejection, check_size, check_client, upstream_of, authorize, too_large,
}

-- The body is within the limit as far as its length is known.
abbrev pub IsWithin : ℕ → Option ℕ → Type 0
IsWithin limit none = Unit
IsWithin limit (some n) = (0 < limit) → n ≤ limit

pub check_size_iff :
    (s : Server) (r : Request)
    → (check_size s r ≡ ok tt) ↔ IsWithin s.max_request_bytes r.content_length
unfolding check_size
check_size_iff s r = by_length s.max_request_bytes r.content_length
  where
    by_length :
        (limit : ℕ) (n : Option ℕ)
        → (refuse_if (too_large limit n) Rejection.body_too_large ≡ ok tt) ↔ IsWithin limit n
    by_length limit none = (λ _. tt, λ _. refl)
    by_length limit (some n) = ground arith

-- X-Upstream-URL is given, parses, and names a host.
pub upstream_of_iff :
    (w : World) (r : Request) (u : Url)
    → (upstream_of w r ≡ ok u) ↔ (
        (get r.header header_upstream_url ≢ [])
        × (w.parse_url (get r.header header_upstream_url) ≡ some u)
        × (u.host ≢ []))
unfolding upstream_of
upstream_of_iff w r u = elim (Option-cases (w.parse_url (get r.header header_upstream_url))) [
  | inl bad ↦ (λ h. absurd (ground arith), λ (_, parsed, _). cc)
  | inr (v, parsed) ↦ (
    λ h. let same : v ≡ u = ground arith in (ground arith, rw same at parsed, ground arith),
    λ (given, parsed', has_host). ground arith,
  )
]

module _ ⦃u : Unicode⦄ (w : World) (s : Server) (r : Request) where
  -- The client's address is one that the allowlist admits, if there is an allowlist.
  abbrev pub IsAdmitted : Type 0
  IsAdmitted =
      (s.allowed_client_cidrs ≡ [])
      ⊎ ((ip : Addr) × (client_ip_from_request w.parsers r.header r.remote_addr
              s.trust_tls_terminator s.trust_cloudflare_headers
            ≡ ok ip)
          × (ip_in_prefixes ip s.allowed_client_cidrs ≡ true))

  pub check_client_iff : (check_client w s r ≡ ok tt) ↔ IsAdmitted
  unfolding check_client
  check_client_iff = elim (Bool-cases (is_empty s.allowed_client_cidrs)) [
    | inl off ↦ (λ h. inl (ground arith), λ h. ground arith)
    | inr on ↦
        elim (Result-cases (
          client_ip_from_request w.parsers r.header r.remote_addr s.trust_tls_terminator
            s.trust_cloudflare_headers)) [
              | inl (ip, e) ↦ (
                λ h. inr (ip, e, ground arith),
                λ h. elim h [
                  | inl off ↦ absurd (ground arith)
                  | inr (ip', e', inside) ↦
                      let same : ip ≡ ip' = ground arith in
                      let inside' = rw (← same) at inside in ground arith
                ],
              )
              | inr (bad, e) ↦ (
                λ h. absurd (ground arith),
                λ h. elim h [
                  | inl off ↦ absurd (ground arith)
                  | inr (ip', e', inside) ↦ absurd (ground arith)
                ],
              )
            ]
  ]

  -- The client proved to be the one that the seal is for: by the bearer whose digest is sealed, or,
  -- for a seal without authorisation, by the server's leave.
  abbrev pub IsAuthorized : Option BearerAuth → Option NoAuth → Type 0
  IsAuthorized (some b) n =
      (bearer : Str) × (extract_bearer (get r.header header_auth_bearer) ≡ some bearer)
      × (verify_bearer w.lib.crypto b bearer ≡ true)
  IsAuthorized none (some n) = s.allow_no_auth ≡ true
  IsAuthorized none none = Unit

  pub authorize_iff :
      (b : Option BearerAuth) (n : Option NoAuth) → (authorize w s r b n ≡ ok tt) ↔ IsAuthorized b n
  unfolding authorize
  authorize_iff (some b) n =
      elim (Option-cases (extract_bearer (get r.header header_auth_bearer))) [
        | inl absent ↦ (λ h. absurd (ground arith), λ (bearer, e, v). absurd (ground arith))
        | inr (bearer, e) ↦ (
          λ h. (bearer, e, ground arith),
          λ (bearer', e', v).
              let same : bearer ≡ bearer' = ground arith in
              let v' = rw (← same) at v in ground arith,
        )
      ]
  authorize_iff none (some n) = ground arith
  authorize_iff none none = (λ _. tt, λ _. refl)
