-- ===== src/Proxy/Respond/Truncation.antt =====
-- When a response is reported as truncated.
use secretproxy.Prelude.{
  ◌≡◌, refl, ◌⊎◌, inl, inr, true, false, none, some, List, [], ◌∷◌, ◌++◌, Any,
}
use secretproxy.Text.{Str}
use secretproxy.Proxy.Respond.{
  Read, bytes, at_end, failed, track, track_all, Served, returned, aborted, copy_error, truncated,
  log_event, log_forward_outcome,
}

abbrev pub IsFailed : Read → Type 0
IsFailed (failed n reason) = Unit
IsFailed _ = ⊥

track_all-some : (reads : List Read) (e : Str) → (e' : Str) × (track_all (some e) reads ≡ some e')
unfolding track_all track
track_all-some [] e = (e, refl)
track_all-some (bytes n ∷ reads) e = track_all-some reads e
track_all-some (at_end n ∷ reads) e = track_all-some reads e
track_all-some (failed n reason ∷ reads) e = track_all-some reads reason

tracked :
    (reads : List Read)
    → ((e : Str) × (track_all none reads ≡ some e) × Any IsFailed reads)
      ⊎ ((track_all none reads ≡ none) × (Any IsFailed reads → ⊥))
unfolding track_all track
tracked [] = inr (refl, λ h. h)
tracked (bytes n ∷ reads) = elim (tracked reads) [
  | inl (e, t, f) ↦ inl (e, t, inr f)
  | inr (t, free) ↦ inr (t, λ h. elim h [ inl bad ↦ bad | inr later ↦ free later ])
]
tracked (at_end n ∷ reads) = elim (tracked reads) [
  | inl (e, t, f) ↦ inl (e, t, inr f)
  | inr (t, free) ↦ inr (t, λ h. elim h [ inl bad ↦ bad | inr later ↦ free later ])
]
tracked (failed n reason ∷ reads) = let (e, t) = track_all-some reads reason in inl (e, t, inl tt)

-- A forwarded request is logged as a truncated one, and as a warning, exactly if a read of the
-- upstream's body failed or the copying was aborted; otherwise under its own name.
pub truncation_logged :
    (event : Str) (reads : List Read) (served : Served)
    → ((log_forward_outcome event reads served ≡ (event ++ truncated, true))
        × (Any IsFailed reads ⊎ (served ≡ aborted)))
      ⊎ ((log_forward_outcome event reads served ≡ (event, false))
          × (Any IsFailed reads → ⊥)
          × (served ≡ returned))
unfolding log_forward_outcome log_event copy_error
truncation_logged event reads returned = elim (tracked reads) [
  | inl (e, t, f) ↦ inl (rw t refl, inl f)
  | inr (t, free) ↦ inr (rw t refl, free, refl)
]
truncation_logged event reads aborted = elim (tracked reads) [
  | inl (e, t, f) ↦ inl (rw t refl, inr refl)
  | inr (t, free) ↦ inl (rw t refl, inr refl)
]
