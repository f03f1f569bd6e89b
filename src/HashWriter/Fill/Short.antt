-- ===== src/HashWriter/Fill/Short.antt =====
-- `read_fully` when the first call of `read` gives fewer bytes than it is asked for.
use sparkey.Base.{
  ℕ, zero, suc, ◌-◌, ◌≤◌, ◌<◌, ◌==◌, ltb, List, [], ◌∷◌, ◌++◌, length, take, drop, length-take,
  length-drop, true, if◌then◌else◌, ◌≡◌, refl, ap, ◌∙◌, arith,
}
use sparkey.Exec.{done}
use sparkey.HashWriter.Fill.{Reading, ReadResult, got, read_loop, read_fully, receive}

-- One call that gives all that is asked for.
pub read_loop-whole :
    (count : ℕ) (r : Reading)
    → 0 < count
    → count ≤ length r.fd.ahead
    → read_loop [] count r ≡ (done tt, receive count [] r)
unfolding read_loop
read_loop-whole zero r positive inside = absurd (omega arith)
read_loop-whole (suc count) r positive inside =
    let none_left : (suc count - length (take (suc count) r.fd.ahead) == 0) ≡ true =
      ground (arith, length-take (suc count) r.fd.ahead inside) in
    rw none_left refl

-- One call that gives less.
read_loop-got :
    (n count : ℕ) (answers : List ReadResult) (r : Reading)
    → n < count
    → read_loop (got n ∷ answers) count r
      ≡ read_loop answers (count - length (take n r.fd.ahead)) (receive n answers r)
unfolding read_loop
read_loop-got n zero answers r short = absurd (omega arith)
read_loop-got n (suc count) answers r short =
    let least : (if ltb (suc count) n then suc count else n) ≡ n = ground (arith, short) in
    ap (λ k. read_loop answers (suc count - length (take k r.fd.ahead)) (receive k answers r)) least

-- A short read is not continued behind its bytes: `read_fully` stores what it reads next over them, at
-- the start of the memory, and returns as if it had read everything. So of `count` bytes that are there
-- to read, of which the first call gives `n`, those from `n` on stand at the start, and what comes
-- after them is not from the file's place for it.
pub read_fully-short :
    (n count : ℕ) (ahead memory : List ℕ)
    → 0 < n
    → n < count
    → count ≤ length ahead
    → read_fully count
        (record { fd = record { ahead = ahead; answers = got n ∷ [] }; buf = memory })
      ≡ (
        done tt,
        record {
          fd = record { ahead = drop (count - n) (drop n ahead); answers = [] };
          buf =
              take (count - n) (drop n ahead)
              ++ drop
                  (length (take (count - n) (drop n ahead)))
                  (take n ahead ++ drop (length (take n ahead)) memory);
        },
      )
unfolding read_fully read_loop
read_fully-short n count ahead memory positive short inside =
    let start : Reading = record {
      fd = record { ahead = ahead; answers = got n ∷ [] };
      buf = memory;
    } in
    let left : count - length (take n ahead) ≡ count - n =
      ap (λ k. count - k) (length-take n ahead (omega (arith, short, inside))) in
    read_loop-got n count [] start short
    ∙ ap (λ k. read_loop [] k (receive n [] start)) left
    ∙ read_loop-whole (count - n) (receive n [] start) (omega (arith, short))
        (omega (arith, length-drop n ahead, inside, short))
