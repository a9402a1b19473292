-- ===== src/Tests/Shutdowns.antt =====
-- A run that is ended by a signal, and one that is ended by the listener.
use secretproxy.Prelude.{◌≤◌, ◌≡◌, ◌≢◌, refl, ◌⊎◌, true, false, Option, none, some}
use secretproxy.Text.{Str, codes}
use secretproxy.Command.Shutdown.{
  ListenError, server_closed, listen_failed, RunError, listener_failed, shutdown_failed, returned,
  ended, sent, State, at, start, Step, signal, fail, close, send, stop, receive, shut, drain, Run,
  here, next, early_result, drained_result,
}
use secretproxy.Tests.Commands.{serve_flags}
use secretproxy.Command.Shutdown.Outcome.{Run-bounded, returned_result}

abbrev closed : State
closed = at (returned none) (sent server_closed) none true true

stopped : Run (start serve_flags) 6 closed
unfolding drained_result
stopped = next (next (next (next (next (next here signal) stop) close) send) (shut none)) drain

abbrev in_use : Str
in_use = codes "address in use"

abbrev failed : State
failed =
    at (returned (some (listener_failed in_use))) (sent (listen_failed in_use)) none false false

refused : Run (start serve_flags) 3 failed
unfolding early_result
refused = next (next (next here (fail in_use)) send) receive

Run-bounded_example :
    (6 ≤ 6)
    × (closed.signalled ≡ true
        → ((r : Option RunError) × (closed.main ≡ returned r))
          ⊎ ((u : State) × Step closed u × (u.main ≢ closed.main)))
    × ((e : ListenError)
        → closed.listener ≡ ended e
        → (u : State) × Step closed u × (u.listener ≡ sent e))
Run-bounded_example = Run-bounded serve_flags stopped

returned_result_example :
    (some (listener_failed in_use) ≡ none → failed.signalled ≡ true)
    × ((reason : Str)
        → some (listener_failed in_use) ≡ some (listener_failed reason)
        → failed.listener ≡ sent (listen_failed reason))
    × ((reason : Str)
        → some (listener_failed in_use) ≡ some (shutdown_failed reason)
        → failed.signalled ≡ true)
    × ((reason : Str)
        → failed.listener ≡ sent (listen_failed reason)
        → failed.channel ≡ none
        → some (listener_failed in_use) ≡ some (listener_failed reason))
returned_result_example = returned_result serve_flags (some (listener_failed in_use)) refused refl
