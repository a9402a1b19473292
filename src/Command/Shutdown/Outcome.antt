-- ===== src/Command/Shutdown/Outcome.antt =====
-- How long runServe runs, and what it returns.
use secretproxy.Prelude.{
  ℕ, ◌≤◌, ◌≡◌, ◌≢◌, refl, ◌⊎◌, inl, inr, Bool, true, false, Option, none, some, arith,
}
use secretproxy.Text.{Str}
use secretproxy.Command.Serving.{ServeFlags}
use secretproxy.Command.Shutdown.{
  ListenError, server_closed, listen_failed, RunError, listener_failed, shutdown_failed, Main,
  waiting, shutting, draining, returned, Listener, serving, ended, sent, State, at, start,
  shutdown_result, drained_result, Step, send, stop, shut, drain, time_out, Run,
}
use secretproxy.Command.Shutdown.Invariant.{
  main_left, listener_left, signal_left, Run-left, IsUnread, IsResult, IsSound, Run-IsSoundState,
}

room-IsSound :
    (m : Main) (e : ListenError) (c : Option ListenError) (s k : Bool)
    → IsSound m (ended e) c s k
    → c ≡ none
room-IsSound waiting e c s k h = h.0
room-IsSound shutting e c s k h = h.0
room-IsSound (draining r) e c s k h = h.0
room-IsSound (returned r) e c s k (inl (reason, h, l, u)) = u
room-IsSound (returned r) e c s k (inr (t, inl (sh, d, h, l, u))) = u
room-IsSound (returned r) e c s k (inr (t, inr (sh, h, u))) = u

abbrev Moves : State → Type 0
Moves t = (u : State) × Step t u × (u.main ≢ t.main)

main-Moves :
    (m : Main) (l : Listener) (c : Option ListenError) (k : Bool)
    → IsSound m l c true k
    → ((r : Option RunError) × (m ≡ returned r)) ⊎ Moves (at m l c true k)
main-Moves waiting l c true h = absurd (ground arith)
main-Moves waiting l c false h = inr (at shutting l c true true, stop, λ e. cc)
main-Moves shutting l c k h = inr (at (draining none) l c true k, shut none, λ e. cc)
main-Moves (draining r) l none k h =
    inr (at (returned (shutdown_result r)) l none true k, time_out, λ e. cc)
main-Moves (draining r) l (some e) k h =
    inr (at (returned (drained_result r e)) l none true k, drain, λ e. cc)
main-Moves (returned r) l c k h = inl (r, refl)

told-Moves :
    (m : Main) (l : Listener) (c : Option ListenError) (s k : Bool)
    → IsSound m l c s k
    → s ≡ true
    → ((r : Option RunError) × (m ≡ returned r)) ⊎ Moves (at m l c s k)
told-Moves m l c true k h e = main-Moves m l c k h
told-Moves m l c false k h e = cc

sends :
    (m : Main) (l : Listener) (c : Option ListenError) (s k : Bool) (e : ListenError)
    → IsSound m l c s k
    → l ≡ ended e
    → (u : State) × Step (at m l c s k) u × (u.listener ≡ sent e)
sends m (serving call) c s k e h same = cc
sends m (sent d) c s k e h same = cc
sends m (ended d) none s k e h same = (at m (sent d) (some d) s k, send, ground arith)
sends m (ended d) (some x) s k e h same = let free = room-IsSound m d (some x) s k h in cc

abbrev IsExplained : Option RunError → Listener → Option ListenError → Bool → Type 0
IsExplained r l c s =
    (r ≡ none → s ≡ true)
    × ((reason : Str) → r ≡ some (listener_failed reason) → l ≡ sent (listen_failed reason))
    × ((reason : Str) → r ≡ some (shutdown_failed reason) → s ≡ true)
    × ((reason : Str)
        → l ≡ sent (listen_failed reason)
        → c ≡ none
        → r ≡ some (listener_failed reason))

result-IsExplained :
    (r : Option RunError) (l : Listener) (c : Option ListenError) (s : Bool)
    → IsResult r l c s
    → IsExplained r l c s
unfolding drained_result
result-IsExplained r l c s (inl (reason, h, e, u)) =
    (λ nothing. cc, λ other same. cc, λ other same. cc, λ other same free. cc)
result-IsExplained r l c s (inr (t, inl (none, server_closed, h, e, u))) =
    (λ nothing. t, λ other same. cc, λ other same. t, λ other same free. cc)
result-IsExplained r l c s (inr (t, inl (some why, server_closed, h, e, u))) =
    (λ nothing. t, λ other same. cc, λ other same. t, λ other same free. cc)
result-IsExplained r l c s (inr (t, inl (sh, listen_failed reason, h, e, u))) =
    (λ nothing. t, λ other same. cc, λ other same. t, λ other same free. cc)
result-IsExplained r l c s (inr (t, inr (none, h, u))) = (
  λ nothing. t,
  λ other same. cc,
  λ other same. t,
  λ other same free. let unread : IsUnread (sent (listen_failed other)) c = rw same at u in cc,
)
result-IsExplained r l c s (inr (t, inr (some why, h, u))) = (
  λ nothing. t,
  λ other same. cc,
  λ other same. t,
  λ other same free. let unread : IsUnread (sent (listen_failed other)) c = rw same at u in cc,
)

returned-IsResult :
    (m : Main) (l : Listener) (c : Option ListenError) (s k : Bool) (r : Option RunError)
    → m ≡ returned r
    → IsSound m l c s k
    → IsResult r l c s
returned-IsResult m l c s k r e h = rw e at h

-- A run from the start, whatever the flags, has at most six steps. Once a signal was given, the main goroutine has returned
-- or has a step to take, and the listener's goroutine, once it has its error, has the step that sends it:
-- neither waits for the other.
pub Run-bounded :
    (f : ServeFlags) {n : ℕ} {t : State}
    → Run (start f) n t
    → (n ≤ 6)
      × (t.signalled ≡ true → ((r : Option RunError) × (t.main ≡ returned r)) ⊎ Moves t)
      × ((e : ListenError) → t.listener ≡ ended e → (u : State) × Step t u × (u.listener ≡ sent e))
unfolding main_left listener_left signal_left
Run-bounded f {n = n} {t = t} run =
    let sound = Run-IsSoundState (refl, refl, tt) run in
    (
      (let h = Run-left run in omega arith),
      told-Moves t.main t.listener t.channel t.signalled t.closing sound,
      λ e h. sends t.main t.listener t.channel t.signalled t.closing e sound h,
    )

-- What runServe returns: nil only after a signal; a listener's failure only if the listener failed with it;
-- Shutdown's error only after a signal; and the failure of a listener wherever its error was received.
pub returned_result :
    (f : ServeFlags) {n : ℕ} {t : State} (r : Option RunError)
    → Run (start f) n t
    → t.main ≡ returned r
    → (r ≡ none → t.signalled ≡ true)
      × ((reason : Str)
          → r ≡ some (listener_failed reason)
          → t.listener ≡ sent (listen_failed reason))
      × ((reason : Str) → r ≡ some (shutdown_failed reason) → t.signalled ≡ true)
      × ((reason : Str)
          → t.listener ≡ sent (listen_failed reason)
          → t.channel ≡ none
          → r ≡ some (listener_failed reason))
returned_result f {t = t} r run h =
    let sound = Run-IsSoundState (refl, refl, tt) run in
    result-IsExplained r t.listener t.channel t.signalled
      (returned-IsResult t.main t.listener t.channel t.signalled t.closing r h sound)
