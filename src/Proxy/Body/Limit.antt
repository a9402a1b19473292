-- ===== src/Proxy/Body/Limit.antt =====
-- How much of a request's body passes the limit.
use secretproxy.Prelude.{
  ℕ, suc, zero, ◌+◌, ◌-◌, ◌≤◌, ◌<◌, ◌≡◌, refl, sym, ap, ◌∙◌, inl, inr, Bool, true, false,
  Bool-cases, Option, none, some, List, [], ◌∷◌, ◌++◌, append-nil, append_assoc, arith, leb, ◌==◌,
  length, length-append,
}
use secretproxy.Text.{Str}
use secretproxy.Proxy.Body.{
  BodyError, eof, broken, too_large, ReadCall, pull, smaller, read_error, Limited, after_read,
  read_open, read_unless, read, read_all,
}

pull_parts : (n : ℕ) (s : Str) → s ≡ (pull n s).0 ++ (pull n s).1
unfolding pull
pull_parts zero s = refl
pull_parts (suc n) [] = refl
pull_parts (suc n) (c ∷ s) = ap (λ t. c ∷ t) (pull_parts n s)

length-pull : (n : ℕ) (s : Str) → n ≤ length s → length (pull n s).0 ≡ n
unfolding pull
length-pull zero s h = refl
length-pull (suc n) [] h = omega arith
length-pull (suc n) (c ∷ s) h = ap suc (length-pull n s (omega arith))

-- What the bytes seen so far and the state of the reader say about the body.
abbrev pub Tells :
    (limit : ℕ) (body seen : Str) (left : ℕ) (source : Str) → Option BodyError → Type 0
Tells limit body seen left source none = (body ≡ seen ++ source) × (length seen + left ≡ limit)
Tells limit body seen left source (some eof) = (body ≡ seen) × (length seen ≤ limit)
Tells limit body seen left source (some broken) =
    ((rest : Str) × (body ≡ seen ++ rest)) × (length seen ≤ limit)
Tells limit body seen left source (some (too_large n)) =
    (n ≡ limit) × (length seen ≡ limit) × ((rest : Str) × (body ≡ seen ++ rest) × (0 < length rest))

abbrev IsTold : ℕ → Str → Str → Limited → Type 0
IsTold limit body seen l = (l.limit ≡ limit) × Tells limit body seen l.left l.source l.stopped

joined :
    (body seen source got rest : Str)
    → body ≡ seen ++ source
    → source ≡ got ++ rest
    → body ≡ (seen ++ got) ++ rest
joined body seen source got rest h e = h ∙ ap (λ t. seen ++ t) e ∙ sym (append_assoc seen got rest)

within-Tells :
    (limit : ℕ) (body seen source got rest : Str) (left : ℕ) (fails tells_end : Bool)
    → body ≡ seen ++ source
    → length seen + left ≡ limit
    → source ≡ got ++ rest
    → length got ≤ left
    → Tells limit body (seen ++ got) (left - length got) rest (read_error fails tells_end rest)
within-Tells limit body seen source got rest left true tells_end h k e fit =
    ((rest, joined body seen source got rest h e), let n = length-append seen got in omega arith)
within-Tells limit body seen source got [] left false true h k e fit = (
  joined body seen source got [] h e ∙ append-nil (seen ++ got),
  let n = length-append seen got in omega arith,
)
within-Tells limit body seen source got (c ∷ rest) left false true h k e fit =
    (joined body seen source got (c ∷ rest) h e, let n = length-append seen got in omega arith)
within-Tells limit body seen source got rest left false false h k e fit =
    (joined body seen source got rest h e, let n = length-append seen got in omega arith)

beyond-Tells :
    (limit : ℕ) (body seen source got rest : Str) (left : ℕ)
    → body ≡ seen ++ source
    → length seen + left ≡ limit
    → source ≡ got ++ rest
    → left < length got
    → Tells limit body (seen ++ (pull left got).0) 0 rest (some (too_large limit))
beyond-Tells limit body seen source got rest left h k e over =
    let kept = (pull left got).0 in
    let lost = (pull left got).1 in
    let full = length-pull left got (omega arith) in
    let parts = ap length (pull_parts left got) ∙ length-append kept lost in
    (
      refl,
      (let n = length-append seen kept in omega arith),
      (
        lost ++ rest,
        joined body seen source kept (lost ++ rest) h
            (e ∙ ap (λ t. t ++ rest) (pull_parts left got) ∙ append_assoc kept lost rest),
        (let n = length-append lost rest in omega arith),
      ),
    )

after_read-IsTold :
    (limit : ℕ) (body seen : Str) (l : Limited) (got rest : Str) (fails tells_end : Bool)
    → l.limit ≡ limit
    → body ≡ seen ++ l.source
    → length seen + l.left ≡ limit
    → l.source ≡ got ++ rest
    → let (chunk, next) = after_read l ((got, rest), read_error fails tells_end rest) in
      IsTold limit body (seen ++ chunk) next
unfolding after_read
after_read-IsTold limit body seen l got rest fails tells_end same h k e =
    elim (Bool-cases (leb (length got) l.left)) [
      | inl fit ↦ rw fit (
        same,
        within-Tells limit body seen l.source got rest l.left fails tells_end h k e (ground arith),
      )
      | inr over ↦ rw over (
        same,
        rw same (beyond-Tells limit body seen l.source got rest l.left h k e (ground arith)),
      )
    ]

read_open-IsTold :
    (limit : ℕ) (body seen : Str) (l : Limited) (c : ReadCall)
    → l.limit ≡ limit
    → l.stopped ≡ none
    → Tells limit body seen l.left l.source none
    → IsTold limit body (seen ++ (read_open l c).0) (read_open l c).1
read_open-IsTold limit body seen l c same going (h, k) = elim (Bool-cases (c.room == 0)) [
  | inl empty ↦ rw empty (rw (append-nil seen) (same, rw going (h, k)))
  | inr roomy ↦ rw roomy (
      let size = smaller (smaller c.room (l.left + 1)) c.arrived in
      after_read-IsTold limit body seen l (pull size l.source).0 (pull size l.source).1 c.fails
        c.tells_end same h k (pull_parts size l.source))
]

read_unless-IsTold :
    (limit : ℕ) (body seen : Str) (l : Limited) (c : ReadCall) (s : Option BodyError)
    → l.limit ≡ limit
    → l.stopped ≡ s
    → Tells limit body seen l.left l.source s
    → IsTold limit body (seen ++ (read_unless s l c).0) (read_unless s l c).1
read_unless-IsTold limit body seen l c none same e told =
    read_open-IsTold limit body seen l c same e told
read_unless-IsTold limit body seen l c (some ended) same e told =
    rw (append-nil seen) (same, rw e told)

-- A read keeps what is told, whatever arrives.
read-IsTold :
    (limit : ℕ) (body seen : Str) (l : Limited) (c : ReadCall)
    → IsTold limit body seen l
    → IsTold limit body (seen ++ (read l c).0) (read l c).1
unfolding read
read-IsTold limit body seen l c (same, told) =
    read_unless-IsTold limit body seen l c l.stopped same refl told

pub read_all-IsTold :
    (limit : ℕ) (body seen : Str) (l : Limited) (cs : List ReadCall)
    → IsTold limit body seen l
    → IsTold limit body (seen ++ (read_all cs l).0) (read_all cs l).1
unfolding read_all
read_all-IsTold limit body seen l [] told = rw (append-nil seen) told
read_all-IsTold limit body seen l (c ∷ cs) told =
    let now = read l c in
    let later =
      read_all-IsTold limit body (seen ++ now.0) now.1 cs (read-IsTold limit body seen l c told) in
    rw (append_assoc seen now.0 (read_all cs now.1).0) at later
