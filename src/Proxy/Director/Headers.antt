-- ===== src/Proxy/Director/Headers.antt =====
-- Which headers reach the upstream.
use secretproxy.Prelude.{
  ◌≡◌, refl, sym, ◌∙◌, ◌≢◌, ◌⊎◌, inl, inr, Bool, true, false, Option, none, some, [], ◌∷◌, arith,
  if◌then◌else◌,
}
use secretproxy.Text.{Str}
use secretproxy.Http.{Header, canonical, put, set, del_all}
use secretproxy.Http.Laws.{IsAmong, put_self, put_other, del_all-none, del_all-among, del_all_other}
use secretproxy.Proxy.Ingress.{x_forwarded_for, cloudflare_trust_headers}
use secretproxy.Proxy.Server.{Server, Url}
use secretproxy.Proxy.Director.{
  Sprintf, Injection, hop_by_hop_headers, auth_headers, strip_headers, inject, director,
}

-- The names that the configuration deletes.
abbrev pub IsStripped : Server → Str → Type 0
IsStripped s key =
    IsAmong key hop_by_hop_headers
    ⊎ ((s.trust_cloudflare_headers ≡ true) × IsAmong key cloudflare_trust_headers)
    ⊎ IsAmong key s.filtered_headers

module _ (s : Server) (h : Header) (key : Str) where
  abbrev edge : Bool → Header → Header
  edge trust g = if trust then del_all cloudflare_trust_headers g else g

  edge-none : (trust : Bool) (g : Header) → g key ≡ none → edge trust g key ≡ none
  edge-none true g e = del_all-none cloudflare_trust_headers key g e
  edge-none false g e = e

  last_step :
      (off : Bool) (g : Header)
      → key ≢ x_forwarded_for
      → (if off then put x_forwarded_for (some []) g else g) key ≡ g key
  last_step true g n = put_other x_forwarded_for key (some []) g (λ e. n (sym e))
  last_step false g n = refl

  strip_headers-stripped : key ≢ x_forwarded_for → IsStripped s key → strip_headers s h key ≡ none
  unfolding strip_headers
  strip_headers-stripped n stripped =
      let no_hops = del_all hop_by_hop_headers h in
      let no_edge = edge s.trust_cloudflare_headers no_hops in
      last_step s.disable_x_forwarded_for (del_all s.filtered_headers no_edge) n ∙ elim stripped [
        | inl hop ↦ del_all-none s.filtered_headers key no_edge (
            edge-none s.trust_cloudflare_headers no_hops
              (del_all-among hop_by_hop_headers key h hop))
        | inr (inl (trust, among)) ↦
            del_all-none s.filtered_headers key no_edge
              (rw trust (del_all-among cloudflare_trust_headers key no_hops among))
        | inr (inr among) ↦ del_all-among s.filtered_headers key no_edge among
      ]

  strip_headers_kept :
      key ≢ x_forwarded_for → (IsStripped s key → ⊥) → strip_headers s h key ≡ h key
  unfolding strip_headers
  strip_headers_kept n kept =
      let no_hops = del_all hop_by_hop_headers h in
      let no_edge = edge s.trust_cloudflare_headers no_hops in
      last_step s.disable_x_forwarded_for (del_all s.filtered_headers no_edge) n
      ∙ del_all_other s.filtered_headers key no_edge (λ m. kept (inr (inr m)))
      ∙ edge_kept s.trust_cloudflare_headers no_hops (λ t m. kept (inr (inl (t, m))))
      ∙ del_all_other hop_by_hop_headers key h (λ m. kept (inl m))
    where
      edge_kept :
          (trust : Bool) (g : Header)
          → (trust ≡ true → IsAmong key cloudflare_trust_headers → ⊥)
          → edge trust g key ≡ g key
      edge_kept true g n = del_all_other cloudflare_trust_headers key g (n refl)
      edge_kept false g n = refl

abbrev value_of : Sprintf → Injection → Str
value_of sprintf i = sprintf i.format i.token

-- With a credential to inject, the director leaves the token, formatted, as the one value of its
-- header; of the other headers except X-Forwarded-For, it drops those that are stripped and the
-- client's Authorization, Proxy-Authorization and Proxy-Authenticate, and leaves every other one as
-- the client sent it.
pub director_headers :
    (sprintf : Sprintf) (s : Server) (target : Url) (i : Injection) (h : Header)
    → let out = (director sprintf s target (some i) h).header in
      (out (canonical i.header_name) ≡ some (value_of sprintf i ∷ []))
      × ((key : Str)
          → key ≢ canonical i.header_name
          → key ≢ x_forwarded_for
          → (IsStripped s key ⊎ IsAmong key auth_headers → out key ≡ none)
            × ((IsStripped s key ⊎ IsAmong key auth_headers → ⊥) → out key ≡ h key))
unfolding director inject set
director_headers sprintf s target i h = (
  put_self (canonical i.header_name) (some (value_of sprintf i ∷ []))
      (del_all auth_headers (strip_headers s h)),
  λ key n x.
      let unset =
        put_other (canonical i.header_name) key (some (value_of sprintf i ∷ []))
          (del_all auth_headers (strip_headers s h)) (λ e. n (sym e)) in
      (
        λ gone. elim gone [
          | inl stripped ↦
              unset
              ∙ del_all-none auth_headers key (strip_headers s h)
                  (strip_headers-stripped s h key x stripped)
          | inr auth ↦ unset ∙ del_all-among auth_headers key (strip_headers s h) auth
        ],
        λ kept.
            unset
            ∙ del_all_other auth_headers key (strip_headers s h) (λ m. kept (inr m))
            ∙ strip_headers_kept s h key x (λ m. kept (inl m)),
      ),
)

strip_headers-disabled :
    (s : Server) (h : Header)
    → s.disable_x_forwarded_for ≡ true
    → strip_headers s h x_forwarded_for ≡ some []
unfolding strip_headers
strip_headers-disabled s h off = rw off (put_self x_forwarded_for (some []) _)

not_auth : IsAmong x_forwarded_for auth_headers → ⊥
unfolding canonical
not_auth (inl e) = absurd (ground arith)
not_auth (inr (inl e)) = absurd (ground arith)
not_auth (inr (inr (inl e))) = absurd (ground arith)
not_auth (inr (inr (inr e))) = e

-- Where X-Forwarded-For is disabled, the outbound header holds the empty entry by which the reverse
-- proxy is told to write none, whatever the client sent, unless the seal itself injects that header.
x_forwarded_for_disabled :
    (sprintf : Sprintf) (s : Server) (target : Url) (i : Option Injection) (h : Header)
    → s.disable_x_forwarded_for ≡ true
    → ((j : Injection) → i ≡ some j → canonical j.header_name ≢ x_forwarded_for)
    → (director sprintf s target i h).header x_forwarded_for ≡ some []
unfolding director inject set
x_forwarded_for_disabled sprintf s target none h off n = strip_headers-disabled s h off
x_forwarded_for_disabled sprintf s target (some j) h off n =
    put_other (canonical j.header_name) x_forwarded_for (some (value_of sprintf j ∷ []))
      (del_all auth_headers (strip_headers s h)) (n j refl)
    ∙ del_all_other auth_headers x_forwarded_for (strip_headers s h) not_auth
    ∙ strip_headers-disabled s h off
