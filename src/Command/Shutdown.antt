-- ===== src/Command/Shutdown.antt =====
-- main.go: the end of runServe. The goroutine of the listener, which calls ListenAndServe or
-- ListenAndServeTLS and sends what that returns, and the main goroutine, which waits for a signal or
-- for the listener, as steps of one state.
pub mod Invariant
pub mod Outcome
use secretproxy.Prelude.{ℕ, ◌+◌, ◌≡◌, Bool, true, false, Option, none, some}
use secretproxy.Text.{Str}
use secretproxy.Command.Serving.{ServeFlags, ListenCall, listen_call}

-- What ListenAndServe and ListenAndServeTLS return: http.ErrServerClosed after Shutdown, or a failure.
pub data ListenError : Type 0 where
  server_closed : ListenError
  listen_failed : (reason : Str) → ListenError

-- The error that runServe returns.
pub data RunError : Type 0 where
  listener_failed shutdown_failed : (reason : Str) → RunError

pub data Main : Type 0 where
  waiting shutting : Main
  draining : (shutdown_err : Option Str) → Main
  returned : Option RunError → Main

pub data Listener : Type 0 where
  serving : (call : ListenCall) → Listener
  ended sent : ListenError → Listener

-- The channel is errCh, which holds one error; `closing` says that Shutdown has begun, `signalled` that
-- the context is done.
pub record State : Type 0 where
  pub main : Main
  pub listener : Listener
  pub channel : Option ListenError
  pub signalled : Bool
  pub closing : Bool

abbrev pub at : Main → Listener → Option ListenError → (signalled closing : Bool) → State
at m l c s k = record { main = m; listener = l; channel = c; signalled = s; closing = k }

abbrev pub start : ServeFlags → State
start f = at waiting (serving (listen_call f)) none false false

-- The case of the first select that receives from errCh.
unfoldable pub early_result : ListenError → Option RunError
early_result server_closed = none
early_result (listen_failed reason) = some (listener_failed reason)

abbrev pub shutdown_result : Option Str → Option RunError
shutdown_result none = none
shutdown_result (some reason) = some (shutdown_failed reason)

-- The case of the second select that receives from errCh.
unfoldable pub drained_result : Option Str → ListenError → Option RunError
drained_result shutdown_err server_closed = shutdown_result shutdown_err
drained_result shutdown_err (listen_failed reason) = some (listener_failed reason)

-- A listener, whichever call it is in, fails at any time, and is closed by Shutdown. The second select waits five seconds, so that
-- it times out only where nothing has been sent.
pub data Step : State → State → Type 0 where
  signal :
      {m : Main} {l : Listener} {c : Option ListenError} {k : Bool}
      → Step (at m l c false k) (at m l c true k)
  fail :
      {m : Main} {call : ListenCall} {c : Option ListenError} {s k : Bool} (reason : Str)
      → Step (at m (serving call) c s k) (at m (ended (listen_failed reason)) c s k)
  close :
      {m : Main} {call : ListenCall} {c : Option ListenError} {s : Bool}
      → Step (at m (serving call) c s true) (at m (ended server_closed) c s true)
  send :
      {m : Main} {e : ListenError} {s k : Bool}
      → Step (at m (ended e) none s k) (at m (sent e) (some e) s k)
  stop :
      {l : Listener} {c : Option ListenError}
      → Step (at waiting l c true false) (at shutting l c true true)
  receive :
      {l : Listener} {e : ListenError} {s k : Bool}
      → Step (at waiting l (some e) s k) (at (returned (early_result e)) l none s k)
  shut :
      {l : Listener} {c : Option ListenError} {s k : Bool} (shutdown_err : Option Str)
      → Step (at shutting l c s k) (at (draining shutdown_err) l c s k)
  drain :
      {l : Listener} {shutdown_err : Option Str} {e : ListenError} {s k : Bool}
      → Step
          (at (draining shutdown_err) l (some e) s k)
          (at (returned (drained_result shutdown_err e)) l none s k)
  time_out :
      {l : Listener} {shutdown_err : Option Str} {s k : Bool}
      → Step
          (at (draining shutdown_err) l none s k)
          (at (returned (shutdown_result shutdown_err)) l none s k)

-- A run of so many steps.
pub data Run (first : State) : ℕ → State → Type 0 where
  here : Run first 0 first
  next : {n : ℕ} {s t : State} → Run first n s → Step s t → Run first (n + 1) t
