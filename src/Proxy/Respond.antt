-- ===== src/Proxy/Respond.antt =====
-- proxy.go: what happens to the response. statusWriter, bodyReadTracker, the error handler and the
-- recovery of forwardTo, and the event that logForwardOutcome names. The bytes that are copied are not
-- modelled.
pub mod Status
pub mod Truncation
use secretproxy.Prelude.{
  ℕ, zero, suc, ◌+◌, ◌-◌, ◌*◌, ◌/◌, ◌%◌, ◌^◌, ◌≤◌, ◌<◌, code, String, ◌≡◌, refl, sym, ap, ◌∙◌,
  ◌≡⟨◌⟩◌, ◌∎, ◌≢◌, ◌↔◌, ◌⊎◌, inl, inr, Bool, true, false, not, ◌&&◌, ◌||◌, Option, none, some, List,
  [], ◌∷◌, ◌++◌, append-nil, append_assoc, arith, ltb, leb, ◌==◌, if◌then◌else◌, ==_iff, Bool-cases,
  Option-cases, &&-eq-true, length, get_elem?, is_empty, length-append, any, all, last_or, All, Any,
  All-append, last_or-append, Result, ok, err, Check, ◌>>=◌, ◌>>◌, refuse_if, wrap, >>=-eq-ok,
  Result-cases, Ensures, Ensures->>=, Ensures-ok,
}
use secretproxy.Text.{Str, codes}
use secretproxy.Proxy.Egress.{DialError, is_refusal}

-- An error of the transport or of the body that is sent, by what its chain holds.
pub data TransportError : Type 0 where
  dial : DialError → TransportError
  max_bytes : (limit : ℕ) → TransportError
  other : TransportError

-- The status that the error handler answers with.
unfoldable pub error_status : TransportError → ℕ
error_status (dial e) = if is_refusal e then 403 else 502
error_status (max_bytes limit) = 413
error_status other = 502

pub record StatusWriter : Type 0 where
  pub status : ℕ
  pub written : Bool

pub new_status_writer : StatusWriter
new_status_writer = record { status = 200; written = false }

-- A call of the writer, which is passed on to the writer below.
pub data Call : Type 0 where
  header : (code : ℕ) → Call
  body : Str → Call

pub write_header : ℕ → StatusWriter → StatusWriter
write_header code s = if s.written then s else record { status = code; written = true }

pub write : StatusWriter → StatusWriter
write s = if s.written then s else record { status = 200; written = true }

abbrev call : Call → StatusWriter → StatusWriter
call (header code) s = write_header code s
call (body text) s = write s

pub calls : List Call → StatusWriter → StatusWriter
calls [] s = s
calls (c ∷ cs) s = calls cs (call c s)

-- A read of the upstream's body: so many bytes, and with them the end or an error.
pub data Read : Type 0 where
  bytes at_end : (n : ℕ) → Read
  failed : (n : ℕ) (reason : Str) → Read

-- bodyReadTracker: the error of the last read that failed.
pub track : Option Str → Read → Option Str
track seen (failed n reason) = some reason
track seen _ = seen

pub track_all : Option Str → List Read → Option Str
track_all seen [] = seen
track_all seen (r ∷ rs) = track_all (track seen r) rs

-- How ServeHTTP of the reverse proxy ends; another panic is passed on.
pub data Served : Type 0 where
  returned aborted : Served

abbrev copy_aborted : Str
copy_aborted = codes "response body copy aborted (httputil ErrAbortHandler)"

-- The result of forwardTo, with its deferred recovery.
pub copy_error : Option Str → Served → Option Str
copy_error tracked returned = tracked
copy_error none aborted = some copy_aborted
copy_error (some e) aborted = some e

abbrev pub truncated : Str
truncated = codes "_truncated"

-- The event and whether it is a warning.
pub log_event : Str → Option Str → Str × Bool
log_event event none = (event, false)
log_event event (some e) = (event ++ truncated, true)

pub log_forward_outcome : Str → List Read → Served → Str × Bool
log_forward_outcome event reads served = log_event event (copy_error (track_all none reads) served)
