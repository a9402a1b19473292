-- ===== src/Net.antt =====
-- What the program uses of net and net/url: the parts of a host with a port, and path unescaping.
pub mod Unescape
pub mod Addr
pub mod Ip
use secretproxy.Prelude.{
  ℕ, zero, suc, ◌+◌, ◌-◌, ◌*◌, ◌/◌, ◌%◌, ◌^◌, ◌≤◌, ◌<◌, code, String, ◌≡◌, refl, sym, ap, ◌∙◌,
  ◌≡⟨◌⟩◌, ◌∎, ◌≢◌, ◌↔◌, ◌⊎◌, inl, inr, Bool, true, false, not, ◌&&◌, ◌||◌, Option, none, some, List,
  [], ◌∷◌, ◌++◌, append-nil, append_assoc, arith, ltb, leb, ◌==◌, if◌then◌else◌, ==_iff, Bool-cases,
  Option-cases, &&-eq-true, length, get_elem?, is_empty, length-append, any, all, last_or, All, Any,
  All-append, last_or-append, Result, ok, err, Check, ◌>>=◌, ◌>>◌, refuse_if, wrap, >>=-eq-ok,
  Result-cases,
}
use secretproxy.Text.{Str, contains_byte, cut}

abbrev cut_at_last : ℕ → ℕ → Str → Option (Str × Str) → Option (Str × Str)
cut_at_last sep c s none = if c == sep then some ([], s) else none
cut_at_last sep c s (some (before, after)) = some (c ∷ before, after)

-- The text before and behind the last separator.
unfoldable pub cut_last : ℕ → Str → Option (Str × Str)
cut_last sep [] = none
cut_last sep (c ∷ s) = cut_at_last sep c s (cut_last sep s)

abbrev pub has_bracket : Str → Bool
has_bracket s = contains_byte b'[' s || contains_byte b']' s

-- `host:port`: the host holds no colon, and no bracket stands anywhere.
abbrev plain_host_port : Option (Str × Str) → Option (Str × Str)
plain_host_port none = none
plain_host_port (some (host, port)) =
    if contains_byte b':' host || (has_bracket host || has_bracket port)
    then none
    else some (host, port)

-- Behind `[host]` stands the last colon, then the port.
abbrev port_behind_bracket : Str → Str → Option (Str × Str)
port_behind_bracket host [] = none
port_behind_bracket host (c ∷ port) =
    if not (c == b':') || (contains_byte b':' port || (contains_byte b'[' host || has_bracket port))
    then none
    else some (host, port)

-- `[host]:port`, where the first `]` closes the host.
abbrev bracketed_host_port : Option (Str × Str) → Option (Str × Str)
bracketed_host_port none = none
bracketed_host_port (some (host, rest)) = port_behind_bracket host rest

-- net.SplitHostPort; `none` is an AddrError.
unfoldable pub split_host_port : Str → Option (Str × Str)
unfolding cut_last cut contains_byte
split_host_port [] = none
split_host_port (c ∷ s) =
    if c == b'[' then bracketed_host_port (cut b']' s) else plain_host_port (cut_last b':' (c ∷ s))
