-- ===== src/Tests/Bodies.antt =====
-- A body of seven bytes against a limit of five, and of two.
use secretproxy.Prelude.{
  ◌≤◌, ◌<◌, ◌≡◌, refl, true, false, some, List, [], ◌∷◌, ◌++◌, arith, length, All,
}
use secretproxy.Text.{Str, codes}
use secretproxy.Proxy.Server.{Server}
use secretproxy.Proxy.Body.{
  ReadCall, eof, too_large, pull, after_read, read, read_all, body_sent, failure_status,
}
use secretproxy.Proxy.Body.Progress.{IsSteady, body_sent_bounded}
use secretproxy.Tests.Samples.{server}

abbrev small : Server
small = record server { max_request_bytes = 5 }

abbrev by_four : ReadCall
by_four = record { room = 4; arrived = 100; fails = false; tells_end = true }

abbrev reads : List ReadCall
reads = by_four ∷ by_four ∷ by_four ∷ []

cut_off : body_sent small (codes "charges") reads ≡ (codes "charg", some (too_large 5))
unfolding body_sent pull after_read read read_all
cut_off = refl

whole : body_sent small (codes "pay") reads ≡ (codes "pay", some eof)
unfolding body_sent pull after_read read read_all
whole = refl

body_sent_bounded_example :
    let (seen, last) = body_sent small (codes "pa") reads in
    ((rest : Str) × (codes "pa" ≡ seen ++ rest))
    × (length seen ≤ 5)
    × (last ≡ some eof → seen ≡ codes "pa")
    × (failure_status last ≡ some 413 → (length seen ≡ 5) × (5 < length (codes "pa")))
    × (All IsSteady reads
        → length (codes "pa") < length reads
        → (length (codes "pa") ≤ 5 → last ≡ some eof)
          × (5 < length (codes "pa") → failure_status last ≡ some 413))
body_sent_bounded_example = body_sent_bounded small (codes "pa") reads (omega arith)
