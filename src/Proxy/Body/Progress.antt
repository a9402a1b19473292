-- ===== src/Proxy/Body/Progress.antt =====
-- A body whose bytes keep arriving is read to its end or to the limit.
use secretproxy.Prelude.{
  ℕ, suc, zero, ◌+◌, ◌≤◌, ◌<◌, ◌≡◌, refl, sym, ap, ◌∙◌, ◌≢◌, ◌⊎◌, inl, inr, true, false, Bool-cases,
  Option, none, some, List, [], ◌∷◌, ◌++◌, append-nil, arith, ltb, leb, ◌==◌, length, length-append,
  All,
}
use secretproxy.Text.{Str}
use secretproxy.Proxy.Server.{Server}
use secretproxy.Proxy.Respond.{error_status}
use secretproxy.Proxy.Body.{
  BodyError, eof, broken, too_large, ReadCall, pull, smaller, read_error, Limited, after_read,
  read_open, read_unless, read, read_all, limited_body, body_failure, failure_status, body_sent,
}
use secretproxy.Proxy.Body.Limit.{Tells, read_all-IsTold}

-- Each read has room, gets at least one byte while there is one, meets no failure, and is told of the end
-- with the last bytes.
abbrev pub IsSteady : ReadCall → Type 0
IsSteady c = (0 < c.room) × (0 < c.arrived) × (c.fails ≡ false) × (c.tells_end ≡ true)

abbrev IsOver : Option BodyError → Type 0
IsOver e = (e ≡ some eof) ⊎ ((limit : ℕ) × (e ≡ some (too_large limit)))

pull_shorter : (n : ℕ) (s : Str) → 0 < n → 0 < length s → length (pull n s).1 < length s
unfolding pull
pull_shorter zero s h k = omega arith
pull_shorter (suc n) [] h k = omega arith
pull_shorter (suc zero) (c ∷ s) h k = omega arith
pull_shorter (suc (suc n)) (c ∷ []) h k = omega arith
pull_shorter (suc (suc n)) (c ∷ d ∷ s) h k =
    let less = pull_shorter (suc n) (d ∷ s) (omega arith) (omega arith) in omega arith

pull-nil : (n : ℕ) → pull n [] ≡ ([], [])
unfolding pull
pull-nil zero = refl
pull-nil (suc n) = refl

-- Such a read ends the body or leaves less of it.
after_read-shorter :
    (l : Limited) (got rest : Str)
    → let next = (after_read l ((got, rest), read_error false true rest)).1 in
      IsOver next.stopped ⊎ ((next.stopped ≡ none) × (next.source ≡ rest) × (rest ≢ []))
unfolding after_read
after_read-shorter l got [] = elim (Bool-cases (leb (length got) l.left)) [
  | inl fit ↦ rw fit (inl (inl refl))
  | inr over ↦ rw over (inl (inr (l.limit, refl)))
]
after_read-shorter l got (c ∷ rest) = elim (Bool-cases (leb (length got) l.left)) [
  | inl fit ↦ rw fit (inr (refl, refl, λ e. cc))
  | inr over ↦ rw over (inl (inr (l.limit, refl)))
]

shorter_rest :
    (n : ℕ) (source : Str)
    → 0 < n
    → (pull n source).1 ≢ []
    → length (pull n source).1 < length source
shorter_rest n [] h ne = absurd (ne (ap (λ p. p.1) (pull-nil n)))
shorter_rest n (c ∷ source) h ne = pull_shorter n (c ∷ source) h (omega arith)

read-open : (l : Limited) (c : ReadCall) → l.stopped ≡ none → read l c ≡ read_open l c
unfolding read
read-open l c going = ap (λ s. read_unless s l c) going

read_open-shorter :
    (l : Limited) (c : ReadCall)
    → IsSteady c
    → let next = (read_open l c).1 in
      IsOver next.stopped ⊎ ((next.stopped ≡ none) × (length next.source < length l.source))
read_open-shorter l c (room, arrived, safe, told) =
    let size = smaller (smaller c.room (l.left + 1)) c.arrived in
    let positive : 0 < size = ground arith in
    let roomy : (c.room == 0) ≡ false = ground arith in
    rw roomy (
      rw safe (
        rw told (elim (after_read-shorter l (pull size l.source).0 (pull size l.source).1) [
          | inl over ↦ inl over
          | inr (more, same, ne) ↦ inr (more, rw same (shorter_rest size l.source positive ne))
        ])))

read-shorter :
    (l : Limited) (c : ReadCall)
    → l.stopped ≡ none
    → IsSteady c
    → let next = (read l c).1 in
      IsOver next.stopped ⊎ ((next.stopped ≡ none) × (length next.source < length l.source))
read-shorter l c going steady = rw (read-open l c going) (read_open-shorter l c steady)

read_stopped :
    (l : Limited) (c : ReadCall) (e : BodyError) → l.stopped ≡ some e → read l c ≡ ([], l)
unfolding read
read_stopped l c e h = ap (λ s. read_unless s l c) h

stopped_stays :
    (cs : List ReadCall) (l : Limited) (e : BodyError)
    → l.stopped ≡ some e
    → (read_all cs l).1.stopped ≡ some e
unfolding read_all
stopped_stays [] l e h = h
stopped_stays (c ∷ cs) l e h = rw (read_stopped l c e h) (stopped_stays cs l e h)

read_all-IsOver_kept :
    (cs : List ReadCall) (l : Limited) → IsOver l.stopped → IsOver (read_all cs l).1.stopped
read_all-IsOver_kept cs l (inl e) = inl (stopped_stays cs l eof e)
read_all-IsOver_kept cs l (inr (limit, e)) = inr (limit, stopped_stays cs l (too_large limit) e)

-- More steady reads than there are bytes bring the body to its end or to the limit.
read_all-IsOver :
    (cs : List ReadCall) (l : Limited)
    → All IsSteady cs
    → l.stopped ≡ none
    → length l.source < length cs
    → IsOver (read_all cs l).1.stopped
unfolding read_all
read_all-IsOver [] l steady going h = absurd (omega arith)
read_all-IsOver (c ∷ cs) l (now, later) going h = elim (read-shorter l c going now) [
  | inl over ↦ read_all-IsOver_kept cs (read l c).1 over
  | inr (more, less) ↦ read_all-IsOver cs (read l c).1 later more (omega arith)
]

module _ (limit : ℕ) (body seen : Str) (left : ℕ) (source : Str) where
  told_beginning :
      (e : Option BodyError)
      → Tells limit body seen left source e
      → ((rest : Str) × (body ≡ seen ++ rest)) × (length seen ≤ limit)
  told_beginning none (h, k) = ((source, h), omega arith)
  told_beginning (some eof) (h, k) = (([], h ∙ sym (append-nil seen)), k)
  told_beginning (some broken) (h, k) = (h, k)
  told_beginning (some (too_large n)) (same, full, (rest, h, more)) = ((rest, h), omega arith)

  told_whole :
      (e : Option BodyError) → Tells limit body seen left source e → e ≡ some eof → seen ≡ body
  told_whole none told h = cc
  told_whole (some eof) (same, k) h = sym same
  told_whole (some broken) told h = cc
  told_whole (some (too_large n)) told h = cc

  longer :
      (rest : Str)
      → length seen ≡ limit
      → body ≡ seen ++ rest
      → 0 < length rest
      → limit < length body
  longer rest full h more = let n = ap length h ∙ length-append seen rest in omega arith

  told_too_large :
      (e : Option BodyError)
      → Tells limit body seen left source e
      → failure_status e ≡ some 413
      → (length seen ≡ limit) × (limit < length body)
  unfolding failure_status body_failure error_status
  told_too_large none told h = cc
  told_too_large (some eof) told h = cc
  told_too_large (some broken) told h = absurd (ground arith)
  told_too_large (some (too_large n)) (same, full, (rest, k, more)) h =
      (full, longer rest full k more)

  told_over :
      (e : Option BodyError)
      → Tells limit body seen left source e
      → IsOver e
      → (length body ≤ limit → e ≡ some eof) × (limit < length body → failure_status e ≡ some 413)
  unfolding failure_status body_failure error_status
  told_over none told over = absurd (ground arith)
  told_over (some eof) (same, k) over =
      (λ h. refl, λ h. absurd (let n = ap length same in omega arith))
  told_over (some broken) told over = absurd (ground arith)
  told_over (some (too_large n)) (same, full, (rest, k, more)) over =
      (λ h. absurd (let n = longer rest full k more in omega arith), λ h. refl)

-- With a limit, the transport gets a beginning of the body that is no longer than the limit, however the
-- bytes arrive and the connection fails; it is told of the end only if it got the whole body, and the
-- answer is 413 only if it got exactly as many bytes as the limit and the body is longer. More steady
-- reads than the body has bytes come to the one or the other: to the end if the body is within the limit,
-- to 413 if it is not.
pub body_sent_bounded :
    (s : Server) (body : Str) (cs : List ReadCall)
    → 0 < s.max_request_bytes
    → let (seen, last) = body_sent s body cs in
      ((rest : Str) × (body ≡ seen ++ rest))
      × (length seen ≤ s.max_request_bytes)
      × (last ≡ some eof → seen ≡ body)
      × (failure_status last ≡ some 413
          → (length seen ≡ s.max_request_bytes) × (s.max_request_bytes < length body))
      × (All IsSteady cs
          → length body < length cs
          → (length body ≤ s.max_request_bytes → last ≡ some eof)
            × (s.max_request_bytes < length body → failure_status last ≡ some 413))
unfolding body_sent
body_sent_bounded s body cs limited =
    let bounded : ltb 0 s.max_request_bytes ≡ true = ground arith in
    let start = limited_body s body in
    let told = read_all-IsTold s.max_request_bytes body [] start cs (refl, (refl, omega arith)) in
    let (seen, last) = read_all cs start in
    let at_end = told.1 in
    let begun =
      told_beginning s.max_request_bytes body seen last.left last.source last.stopped at_end in
    rw bounded (
      begun.0,
      begun.1,
      told_whole s.max_request_bytes body seen last.left last.source last.stopped at_end,
      told_too_large s.max_request_bytes body seen last.left last.source last.stopped at_end,
      λ steady enough.
          told_over s.max_request_bytes body seen last.left last.source last.stopped at_end
            (read_all-IsOver cs start steady refl enough),
    )
