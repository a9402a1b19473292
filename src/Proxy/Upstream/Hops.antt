-- ===== src/Proxy/Upstream/Hops.antt =====
-- Which header lines go upstream.
use secretproxy.Prelude.{◌≡◌, ◌⊎◌, some}
use secretproxy.Text.{Str, str_eq, split}
use secretproxy.Http.{Header, put}
use secretproxy.Http.Laws.{IsAmong}
use secretproxy.Proxy.Ingress.{x_forwarded_for}
use secretproxy.Proxy.Server.{Server, Url}
use secretproxy.Proxy.Director.{Sprintf, Injection, director}
use secretproxy.Proxy.Upstream.{
  accept_encoding, own_lines, transport_header, user_agent, te, upstream_header,
}

-- What the reverse proxy and the transport write themselves.
abbrev pub IsWritten : Str → Type 0
IsWritten key =
    (key ≡ x_forwarded_for)
    ⊎ ((key ≡ user_agent) ⊎ ((key ≡ te) ⊎ ((key ≡ accept_encoding) ⊎ IsAmong key own_lines)))

-- What the director's request becomes on the way through the reverse proxy and the transport.
unfoldable pub sent_header :
    Sprintf → Server → Url → Injection → (method remote_addr : Str) → Header → Header
sent_header sprintf s target i method remote_addr h =
    transport_header method
      (upstream_header remote_addr h (director sprintf s target (some i) h).header)
