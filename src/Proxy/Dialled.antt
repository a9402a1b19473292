-- ===== src/Proxy/Dialled.antt =====
-- The address that http.Transport dials for a request of the director: URL.Hostname and URL.Port of
-- net/url, the ASCII form of the host, and the default port of the scheme.
pub mod Ports
use secretproxy.Prelude.{
  ℕ, Bool, true, false, ◌&&◌, List, [], ◌∷◌, Option, none, some, ◌==◌, leb, if◌then◌else◌, is_empty,
  all,
}
use secretproxy.Text.{Str, is_ascii, codes, ends_with, str_eq}
use secretproxy.Net.{cut_last}
use secretproxy.Proxy.Server.{Url}

abbrev pub is_digit : ℕ → Bool
is_digit c = leb b'0' c && leb c b'9'

unfoldable drop_last : Str → Str
drop_last [] = []
drop_last (c ∷ []) = []
drop_last (c ∷ d ∷ s) = c ∷ drop_last (d ∷ s)

-- The host of an address in brackets.
pub unbracket : Str → Str
unbracket [] = []
unbracket (c ∷ s) = if c == b'[' && ends_with b']' s then drop_last s else c ∷ s

-- What stands behind the last colon is a port only if it is all digits.
abbrev port_or_none : Str → Option (Str × Str) → Str × Str
port_or_none host none = (unbracket host, [])
port_or_none host (some (h, port)) =
    if all is_digit port then (unbracket h, port) else (unbracket host, [])

-- URL.Hostname and URL.Port.
pub hostname_port : Str → Str × Str
hostname_port host = port_or_none host (cut_last b':' host)

abbrev default_port : Str → Str
default_port scheme =
    if str_eq scheme (codes "https")
    then codes "443"
    else if str_eq scheme (codes "http")
    then codes "80"
    else []

-- The conversion to ASCII of golang.org/x/net/idna; `none` is an error.
pub record Idna : Type 0 where
  pub to_ascii : Str → Option Str

abbrev ascii_or : Str → Option Str → Str
ascii_or host none = host
ascii_or host (some ascii) = ascii

-- idnaASCIIFromURL: a host of ASCII is dialled as it is, and any other in its ASCII form if there is one.
pub idna_host : ⦃n : Idna⦄ → Str → Str
idna_host ⦃n⦄ host = if is_ascii host then host else ascii_or host (n.to_ascii host)

-- canonicalAddr: the host and port that the transport hands to its DialContext.
pub dialled : ⦃n : Idna⦄ → Url → Str × Str
dialled url =
    let (host, port) = hostname_port url.host in
    (idna_host host, if is_empty port then default_port url.scheme else port)
