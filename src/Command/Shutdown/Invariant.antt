-- ===== src/Command/Shutdown/Invariant.antt =====
-- How many steps are left, and what the two goroutines agree on.
use secretproxy.Prelude.{
  ℕ, ◌+◌, ◌≤◌, ◌≡◌, refl, ◌⊎◌, inl, inr, Bool, true, false, Option, none, some, arith,
}
use secretproxy.Text.{Str}
use secretproxy.Command.Serving.{ListenCall}
use secretproxy.Command.Shutdown.{
  ListenError, server_closed, listen_failed, RunError, listener_failed, Main, waiting, shutting,
  draining, returned, Listener, serving, ended, sent, State, early_result, shutdown_result,
  drained_result, Step, signal, fail, close, send, stop, receive, shut, drain, time_out, Run, here,
  next,
}

unfoldable pub main_left : Main → ℕ
main_left waiting = 3
main_left shutting = 2
main_left (draining e) = 1
main_left (returned r) = 0

unfoldable pub listener_left : Listener → ℕ
listener_left (serving call) = 2
listener_left (ended e) = 1
listener_left (sent e) = 0

unfoldable pub signal_left : Bool → ℕ
signal_left false = 1
signal_left true = 0

abbrev pub left : State → ℕ
left s = main_left s.main + listener_left s.listener + signal_left s.signalled

Step-left : {s t : State} → Step s t → left t + 1 ≤ left s
unfolding main_left listener_left signal_left
Step-left signal = omega arith
Step-left (fail reason) = omega arith
Step-left close = omega arith
Step-left send = omega arith
Step-left stop = omega arith
Step-left receive = omega arith
Step-left (shut e) = omega arith
Step-left drain = omega arith
Step-left time_out = omega arith

pub Run-left : {s : State} {n : ℕ} {t : State} → Run s n t → left t + n ≤ left s
Run-left here = omega arith
Run-left (next run step) = omega (arith, Run-left run, Step-left step)

-- An error that the listener has sent stands in the channel, where nobody has received it.
abbrev pub IsUnread : Listener → Option ListenError → Type 0
IsUnread (serving call) c = c ≡ none
IsUnread (ended e) c = c ≡ none
IsUnread (sent e) c = c ≡ some e

-- A listener that has not been closed did not end as one that is.
abbrev IsUnclosed : Listener → Type 0
IsUnclosed (ended server_closed) = ⊥
IsUnclosed (sent server_closed) = ⊥
IsUnclosed _ = Unit

-- Where the result comes from: the listener's failure before any signal; and after one, from what was
-- received of the listener, or, if that took too long, from Shutdown alone.
abbrev pub IsResult : Option RunError → Listener → Option ListenError → Bool → Type 0
IsResult r l c signalled =
    ((reason : Str) × (r ≡ some (listener_failed reason))
      × (l ≡ sent (listen_failed reason))
      × (c ≡ none))
    ⊎ ((signalled ≡ true)
        × (((shutdown_err : Option Str) × (e : ListenError) × (r ≡ drained_result shutdown_err e)
              × (l ≡ sent e)
              × (c ≡ none))
            ⊎ ((shutdown_err : Option Str) × (r ≡ shutdown_result shutdown_err) × IsUnread l c)))

abbrev pub IsSound : Main → Listener → Option ListenError → (signalled closing : Bool) → Type 0
IsSound waiting l c s k = IsUnread l c × (k ≡ false) × IsUnclosed l
IsSound shutting l c s k = IsUnread l c × (s ≡ true)
IsSound (draining e) l c s k = IsUnread l c × (s ≡ true)
IsSound (returned r) l c s k = IsResult r l c s

signal-IsSound :
    (m : Main) (l : Listener) (c : Option ListenError) (k : Bool)
    → IsSound m l c false k
    → IsSound m l c true k
signal-IsSound waiting l c k h = h
signal-IsSound shutting l c k (h, e) = (h, refl)
signal-IsSound (draining r) l c k (h, e) = (h, refl)
signal-IsSound (returned r) l c k (inl early) = inl early
signal-IsSound (returned r) l c k (inr (e, h)) = inr (refl, h)

-- The listener ends, as failed or, where Shutdown has begun, as closed.
end-IsSound :
    (m : Main) (call : ListenCall) (e : ListenError) (c : Option ListenError) (s k : Bool)
    → (k ≡ false → IsUnclosed (ended e))
    → IsSound m (serving call) c s k
    → IsSound m (ended e) c s k
end-IsSound waiting call e c s k new (h, unclosed, u) = (h, unclosed, new unclosed)
end-IsSound shutting call e c s k new h = h
end-IsSound (draining r) call e c s k new h = h
end-IsSound (returned r) call e c s k new (inl (reason, h, l, u)) = absurd (ground arith)
end-IsSound (returned r) call e c s k new (inr (t, inl (sh, d, h, l, u))) = absurd (ground arith)
end-IsSound (returned r) call e c s k new (inr (t, inr (sh, h, u))) = inr (t, inr (sh, h, u))

sent-IsUnclosed : (e : ListenError) → IsUnclosed (ended e) → IsUnclosed (sent e)
sent-IsUnclosed server_closed h = h
sent-IsUnclosed (listen_failed reason) h = tt

send-IsSound :
    (m : Main) (e : ListenError) (s k : Bool)
    → IsSound m (ended e) none s k
    → IsSound m (sent e) (some e) s k
send-IsSound waiting e s k (h, unclosed, u) = (refl, unclosed, sent-IsUnclosed e u)
send-IsSound shutting e s k (h, t) = (refl, t)
send-IsSound (draining r) e s k (h, t) = (refl, t)
send-IsSound (returned r) e s k (inl (reason, h, l, u)) = absurd (ground arith)
send-IsSound (returned r) e s k (inr (t, inl (sh, d, h, l, u))) = absurd (ground arith)
send-IsSound (returned r) e s k (inr (t, inr (sh, h, u))) = inr (t, inr (sh, h, refl))

receive-IsResult :
    (l : Listener) (e : ListenError) (s : Bool)
    → IsUnread l (some e)
    → IsUnclosed l
    → IsResult (early_result e) l none s
unfolding early_result
receive-IsResult (serving call) e s h u = absurd (ground arith)
receive-IsResult (ended d) e s h u = absurd (ground arith)
receive-IsResult (sent server_closed) e s h u = absurd u
receive-IsResult (sent (listen_failed reason)) server_closed s h u = absurd (ground arith)
receive-IsResult (sent (listen_failed reason)) (listen_failed other) s h u =
    inl (other, refl, ground arith, refl)

drain-IsResult :
    (l : Listener) (shutdown_err : Option Str) (e : ListenError) (s : Bool)
    → IsUnread l (some e)
    → s ≡ true
    → IsResult (drained_result shutdown_err e) l none s
drain-IsResult (serving call) r e s h t = absurd (ground arith)
drain-IsResult (ended d) r e s h t = absurd (ground arith)
drain-IsResult (sent d) r e s h t = inr (t, inl (r, e, refl, ground arith, refl))

abbrev IsSoundState : State → Type 0
IsSoundState t = IsSound t.main t.listener t.channel t.signalled t.closing

Step-IsSoundState : {s t : State} → Step s t → IsSoundState s → IsSoundState t
Step-IsSoundState (signal {m = m} {l = l} {c = c} {k = k}) h = signal-IsSound m l c k h
Step-IsSoundState (fail {m = m} {call = call} {c = c} {s = s} {k = k} reason) h =
    end-IsSound m call (listen_failed reason) c s k (λ e. tt) h
Step-IsSoundState (close {m = m} {call = call} {c = c} {s = s}) h =
    end-IsSound m call server_closed c s true (λ e. absurd (ground arith)) h
Step-IsSoundState (send {m = m} {e = e} {s = s} {k = k}) h = send-IsSound m e s k h
Step-IsSoundState stop (h, e, u) = (h, refl)
Step-IsSoundState (receive {l = l} {e = e} {s = s}) (h, k, u) = receive-IsResult l e s h u
Step-IsSoundState (shut e) h = h
Step-IsSoundState (drain {l = l} {shutdown_err = r} {e = e} {s = s}) (h, t) =
    drain-IsResult l r e s h t
Step-IsSoundState (time_out {shutdown_err = r}) (h, t) = inr (t, inr (r, refl, h))

pub Run-IsSoundState : {s : State} {n : ℕ} {t : State} → IsSoundState s → Run s n t → IsSoundState t
Run-IsSoundState h here = h
Run-IsSoundState h (next run step) = Step-IsSoundState step (Run-IsSoundState h run)
