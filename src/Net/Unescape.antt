-- ===== src/Net/Unescape.antt =====
-- url.PathUnescape.
use secretproxy.Prelude.{ℕ, ◌+◌, ◌*◌, Option, none, some, [], ◌∷◌, ◌==◌, if◌then◌else◌}
use secretproxy.Text.{Str}
use secretproxy.Encoding.Hex.{from_hex}

abbrev percent : ℕ
percent = b'%'

-- The byte of two hexadecimal digits in front of the rest.
abbrev unescaped : Option ℕ → Option ℕ → Option Str → Option Str
unescaped (some h) (some l) (some rest) = some ((h * 16 + l) ∷ rest)
unescaped (some h) (some l) none = none
unescaped (some h) none rest = none
unescaped none l rest = none

abbrev kept : ℕ → Option Str → Option Str
kept c none = none
kept c (some rest) = some (c ∷ rest)

-- `none` is an EscapeError: a `%` that two hexadecimal digits do not follow.
unfoldable pub path_unescape : Str → Option Str
unfolding from_hex
path_unescape [] = some []
path_unescape (a ∷ []) = if a == percent then none else some (a ∷ [])
path_unescape (a ∷ b ∷ []) =
    let rest = path_unescape (b ∷ []) in if a == percent then none else kept a rest
path_unescape (a ∷ b ∷ c ∷ s) =
    let escaped = path_unescape s in
    let plain = path_unescape (b ∷ c ∷ s) in
    if a == percent then unescaped (from_hex b) (from_hex c) escaped else kept a plain
