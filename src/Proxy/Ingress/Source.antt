-- ===== src/Proxy/Ingress/Source.antt =====
-- Which part of a request names its client.
use secretproxy.Prelude.{
  ◌≡◌, ◌⊎◌, inl, inr, refl, Bool, true, false, not, List, [], ◌∷◌, ◌++◌, is_empty, last_or,
  last_or-append, err,
}
use secretproxy.Text.{split, Str, Unicode, trim_space}
use secretproxy.Text.Splitting.{Lacks, last_or-split, split_of_Lacks}
use secretproxy.Net.Addr.{Parsers}
use secretproxy.Http.{Header, get, values}
use secretproxy.Proxy.Ingress.{
  cf_connecting_ip_absent, rightmost_entry_empty, unless_empty, client_ip_from_request,
  cf_connecting_ip, x_forwarded_for,
}

module _ ⦃u : Unicode⦄ (parsers : Parsers) where
  not-is_empty-append : (lines : List Str) (l : Str) → not (is_empty (lines ++ l ∷ [])) ≡ true
  not-is_empty-append [] l = refl
  not-is_empty-append (k ∷ lines) l = refl

  last_part :
      (line token : Str)
      → (line ≡ token) ⊎ ((before : Str) × (line ≡ before ++ b',' ∷ token))
      → Lacks b',' token
      → last_or [] (split b',' line) ≡ token
  last_part line token (inl whole) free = rw (whole, split_of_Lacks b',' token free) refl
  last_part line token (inr (before, parts)) free =
      rw parts (last_or-split b',' before token [] free)

  -- Behind a terminator the client is the last entry of the last X-Forwarded-For line: what stands behind
  -- the line's last comma, or the whole of a line without one. Neither the lines before, nor the entries
  -- before on that line, nor the peer's address change the answer; an empty last entry is an error.
  pub last_entry_decides :
      (h : Header) (remote_addr : Str) (lines : List Str) (line token : Str)
      → values h x_forwarded_for ≡ lines ++ line ∷ []
      → (line ≡ token) ⊎ ((before : Str) × (line ≡ before ++ b',' ∷ token))
      → Lacks b',' token
      → client_ip_from_request parsers h remote_addr true false
        ≡ unless_empty parsers rightmost_entry_empty (trim_space token)
  unfolding client_ip_from_request
  last_entry_decides h remote_addr lines line token e parts free = rw (
    e,
    not-is_empty-append lines line,
    last_or-append [] lines line,
    last_part line token parts free,
  )

  -- Behind Cloudflare the client is CF-Connecting-IP and nothing else: whatever the two requests say
  -- in other headers and whatever their peers, and with a terminator or without; an absent or blank
  -- header is an error.
  pub cloudflare_decides :
      (h h' : Header) (remote_addr remote_addr' : Str) (terminator terminator' : Bool)
      → get h cf_connecting_ip ≡ get h' cf_connecting_ip
      → (client_ip_from_request parsers h remote_addr terminator true
          ≡ client_ip_from_request parsers h' remote_addr' terminator' true)
        × (trim_space (get h cf_connecting_ip) ≡ []
            → client_ip_from_request parsers h remote_addr terminator true
              ≡ err cf_connecting_ip_absent)
  unfolding client_ip_from_request
  cloudflare_decides h h' remote_addr remote_addr' terminator terminator' e =
      (rw e, λ blank. rw blank)
