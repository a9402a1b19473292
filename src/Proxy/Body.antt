-- ===== src/Proxy/Body.antt =====
-- proxy.go: the request's body as handleForward wraps it. http.MaxBytesReader over a body that arrives in
-- pieces, and the answer to a body that is too large.
pub mod Limit
pub mod Progress
use secretproxy.Prelude.{
  ℕ, suc, zero, ◌+◌, ◌-◌, Bool, true, false, ◌&&◌, Option, none, some, List, [], ◌∷◌, ◌++◌, arith,
  ltb, leb, ◌==◌, if◌then◌else◌, length, is_empty,
}
use secretproxy.Text.{Str}
use secretproxy.Proxy.Server.{Server}
use secretproxy.Proxy.Respond.{TransportError, max_bytes, other, error_status}

-- What a read of a body ends with: io.EOF, MaxBytesError, or an error of the connection.
pub data BodyError : Type 0 where
  eof broken : BodyError
  too_large : (limit : ℕ) → BodyError

-- A call of Read: the room in its buffer, the bytes that have arrived, whether the connection fails after
-- them, and whether the last bytes come together with io.EOF.
pub record ReadCall : Type 0 where
  pub room : ℕ
  pub arrived : ℕ
  pub fails : Bool
  pub tells_end : Bool

-- At most so many bytes, and those after them.
unfoldable pub pull : ℕ → Str → Str × Str
pull zero s = ([], s)
pull (suc n) [] = ([], [])
pull (suc n) (c ∷ s) = let (got, rest) = pull n s in (c ∷ got, rest)

abbrev pub smaller : ℕ → ℕ → ℕ
smaller n m = if leb n m then n else m

abbrev pub read_error : (fails tells_end : Bool) → Str → Option BodyError
read_error true tells_end rest = some broken
read_error false true [] = some eof
read_error false _ rest = none

-- Read of the body below the limit.
abbrev source_read : Str → (size : ℕ) → ReadCall → (Str × Str) × Option BodyError
source_read source size c =
    let taken = pull (smaller size c.arrived) source in
    (taken, read_error c.fails c.tells_end taken.1)

-- http.maxBytesReader: the bytes that may still be read, the error that ended it, the body below.
pub record Limited : Type 0 where
  pub limit : ℕ
  pub left : ℕ
  pub stopped : Option BodyError
  pub source : Str

unfoldable pub after_read : Limited → (Str × Str) × Option BodyError → Str × Limited
after_read l ((got, rest), failure) =
    if leb (length got) l.left
    then (got, record l { left = l.left - length got; stopped = failure; source = rest })
    else (
      (pull l.left got).0,
      record l { left = 0; stopped = some (too_large l.limit); source = rest },
    )

-- A buffer with room for more than one byte too many is cut down to that.
abbrev pub read_open : Limited → ReadCall → Str × Limited
read_open l c =
    if c.room == 0
    then ([], l)
    else after_read l (source_read l.source (smaller c.room (l.left + 1)) c)

abbrev pub read_unless : Option BodyError → Limited → ReadCall → Str × Limited
read_unless none l c = read_open l c
read_unless (some e) l c = ([], l)

-- The bytes that a read delivers; its error is the one that it leaves in `stopped`.
unfoldable pub read : Limited → ReadCall → Str × Limited
read l c = read_unless l.stopped l c

unfoldable pub read_all : List ReadCall → Limited → Str × Limited
read_all [] l = ([], l)
read_all (c ∷ cs) l =
    let (got, next) = read l c in let (more, last) = read_all cs next in (got ++ more, last)

-- The body of a request, where the server has a limit.
abbrev pub limited_body : Server → Str → Limited
limited_body s body = record {
  limit = s.max_request_bytes;
  left = s.max_request_bytes;
  stopped = none;
  source = body;
}

-- The transport's error for a body that ended, and the status that the error handler answers with.
pub body_failure : Option BodyError → Option TransportError
body_failure none = none
body_failure (some eof) = none
body_failure (some broken) = some other
body_failure (some (too_large limit)) = some (max_bytes limit)

pub failure_status : Option BodyError → Option ℕ
failure_status e = elim (body_failure e) [ none ↦ none | some t ↦ some (error_status t) ]

-- Without a limit the transport reads the body itself, up to its end or an error.
abbrev ended_or : Option BodyError → Str → Str × Option BodyError → Str × Option BodyError
ended_or none got (more, last) = (got ++ more, last)
ended_or (some e) got later = (got, some e)

pub read_plain : List ReadCall → Str → Str × Option BodyError
read_plain [] source = ([], none)
read_plain (c ∷ cs) source =
    let (taken, failure) = source_read source c.room c in
    ended_or failure taken.0 (read_plain cs taken.1)

-- What the transport gets of the body of a request that handleForward has let through, and how it ends.
unfoldable pub body_sent : Server → Str → List ReadCall → Str × Option BodyError
body_sent s body cs =
    if ltb 0 s.max_request_bytes
    then (let (seen, last) = read_all cs (limited_body s body) in (seen, last.stopped))
    else read_plain cs body
