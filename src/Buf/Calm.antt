-- ===== src/Buf/Calm.antt =====
-- `buf_add` and `buf_flushfile` where the system never fails for good.
use sparkey.Base.{ℕ, zero, suc, List, length, All, Bool-cases, leb, inl, inr}
use sparkey.Exec.{◌>>=◌}
use sparkey.Exec.Calm.{IsCalm, bind-IsCalm}
use sparkey.File.Quiet.{IsRetried, write_full-IsQuiet}
use sparkey.Buf.{Stream, buf_remaining, buf_flushfile, add_loop, buf_add}

-- The answers of the system that are left are no errors but those after which a write is tried again.
abbrev pub IsServed : Stream → Type 0
IsServed s = All IsRetried s.file.answers

pub buf_flushfile-IsCalm : (s : Stream) → IsServed s → IsCalm IsServed (buf_flushfile s)
unfolding buf_flushfile ◌>>=◌
buf_flushfile-IsCalm s h =
    let (returned, quiet) = write_full-IsQuiet s.buf.bytes s.file h in rw returned (tt, quiet)

add_loop-IsCalm :
    (fuel : ℕ) (input : List ℕ) (s : Stream) → IsServed s → IsCalm IsServed (add_loop fuel input s)
unfolding add_loop
add_loop-IsCalm zero input s h = (tt, h)
add_loop-IsCalm (suc fuel) input s h =
    elim (Bool-cases (leb (length input) (buf_remaining s.buf))) [
      | inl fits ↦ rw fits (tt, h)
      | inr more ↦ rw more (
          bind-IsCalm IsServed buf_flushfile _ _ (buf_flushfile-IsCalm _ h)
            (λ u t served. add_loop-IsCalm fuel _ t served))
    ]

pub buf_add-IsCalm : (input : List ℕ) (s : Stream) → IsServed s → IsCalm IsServed (buf_add input s)
unfolding buf_add
buf_add-IsCalm input s h = add_loop-IsCalm _ input s h
