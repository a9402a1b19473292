-- ===== src/Proxy/Respond/Status.antt =====
-- The status that is recorded for the log, and the one that the client receives.
use secretproxy.Prelude.{
  ℕ, code, ◌≡◌, refl, Bool, true, false, not, ◌&&◌, List, [], ◌∷◌, leb, ◌==◌, if◌then◌else◌, All,
}
use secretproxy.Proxy.Respond.{new_status_writer, Call, header, body, write_header, write, calls}

-- net/http sends an informational status at once and goes on waiting for the final one.
abbrev is_informational : ℕ → Bool
is_informational code = (leb 100 code && leb code 199) && not (code == 101)

-- The final status of a response of net/http.
abbrev pub final_status : List Call → ℕ
final_status [] = 200
final_status (header code ∷ cs) =
    let rest = final_status cs in if is_informational code then rest else code
final_status (body text ∷ cs) = 200

abbrev IsFinal : Call → Type 0
IsFinal (header code) = is_informational code ≡ false
IsFinal (body text) = Unit

calls-written :
    (cs : List Call) (first : ℕ)
    → (calls cs (record { status = first; written = true })).status ≡ first
unfolding calls write_header write
calls-written [] first = refl
calls-written (header code ∷ cs) first = calls-written cs first
calls-written (body text ∷ cs) first = calls-written cs first

-- If no call sends an informational status, the status that is recorded for the log is the one that
-- the client receives.
recorded_status :
    (cs : List Call) → All IsFinal cs → (calls cs new_status_writer).status ≡ final_status cs
unfolding calls write_header write new_status_writer
recorded_status [] h = refl
recorded_status (header code ∷ cs) (final, h) = rw final (calls-written cs code)
recorded_status (body text ∷ cs) h = calls-written cs 200

-- An informational status that is passed on first is what is recorded, whatever final status the
-- client then receives.
pub informational_recorded :
    (code : ℕ) (cs : List Call)
    → is_informational code ≡ true
    → ((calls (header code ∷ cs) new_status_writer).status ≡ code)
      × (final_status (header code ∷ cs) ≡ final_status cs)
unfolding calls write_header write new_status_writer
informational_recorded code cs h = (calls-written cs code, rw h refl)
