-- ===== src/File/Quiet.antt =====
-- `write_full` where the system never fails for good.
use sparkey.Base.{
  ℕ, zero, suc, List, [], ◌∷◌, take, drop, All, none, ◌≡◌, refl, sym, ap, ◌∙◌, inl, inr,
}
use sparkey.Exec.{Outcome, done, thrown, ◌>>=◌}
use sparkey.Exec.Calm.{Calm, Calm-then}
use sparkey.Endian.{little_endian32, little_endian64}
use sparkey.File.{
  fwrite_little_endian32, fwrite_little_endian64, File, WriteResult, wrote, failed, accept,
  write_failure, after_failure, write_loop, write_once, write_runs, write_full,
}
use sparkey.File.Write.{IsPlaced, write_full-Transfers}

-- The answer is no error, or one after which `_write_full` tries again.
abbrev pub IsRetried : WriteResult → Type 0
IsRetried (wrote n) = Unit {0}
IsRetried (failed e) = write_failure e ≡ none

abbrev pub IsQuiet : Outcome (Unit {0}) × File → Type 0
IsQuiet r = (r.0 ≡ done tt) × All IsRetried r.1.answers

write_loop-IsQuiet :
    (answers : List WriteResult) (buf : List ℕ) (f : File)
    → All IsRetried answers
    → IsQuiet (write_loop answers buf f)
unfolding write_loop after_failure
write_loop-IsQuiet [] [] f h = (refl, h)
write_loop-IsQuiet [] (b ∷ buf) f h = (refl, h)
write_loop-IsQuiet (a ∷ answers) [] f h = (refl, h)
write_loop-IsQuiet (wrote n ∷ answers) (b ∷ buf) f h = write_loop-IsQuiet answers _ _ h.1
write_loop-IsQuiet (failed e ∷ answers) (b ∷ buf) f h =
    rw h.0 (write_loop-IsQuiet answers (b ∷ buf) f h.1)

write_runs-IsQuiet :
    (block runs : ℕ) (buf : List ℕ) (f : File)
    → All IsRetried f.answers
    → IsQuiet (write_runs block runs buf f)
unfolding write_runs write_once ◌>>=◌
write_runs-IsQuiet block zero buf f h = write_loop-IsQuiet f.answers buf f h
write_runs-IsQuiet block (suc runs) buf f h =
    let (returned, quiet) = write_loop-IsQuiet f.answers (take block buf) f h in
    rw returned (
      write_runs-IsQuiet block runs (drop block buf) (write_loop f.answers (take block buf) f).1
        quiet)

pub write_full-IsQuiet :
    (buf : List ℕ) (f : File) → All IsRetried f.answers → IsQuiet (write_full buf f)
unfolding write_full
write_full-IsQuiet buf f h = write_runs-IsQuiet _ _ buf f h

-- Where every answer of the system is that some bytes were taken, or an error that is to be tried
-- again, `write_full` does not fail: it returns with exactly `buf` written at the offset of the file.
-- The offset is not past the end of the file.
pub write_full_returns :
    (buf : List ℕ) (f : File)
    → IsPlaced f
    → All IsRetried f.answers
    → (left : List WriteResult) × (write_full buf f
        ≡ (done tt, record (accept f buf) { answers = left }))
write_full_returns buf f p h = elim (write_full-Transfers buf f p) [
  | inl r ↦ r
  | inr (code, k, left, le, e) ↦
      let (returned, quiet) = write_full-IsQuiet buf f h in
      let clash : thrown code ≡ done tt = sym (ap (λ r. r.0) e) ∙ returned in cc
]

pub write_nothing : (f : File) → write_full [] f ≡ (done tt, f)
unfolding write_full write_runs write_once write_loop
write_nothing f = refl

-- The same for the writers of words and for what is made of them.
abbrev pub IsServed : File → Type 0
IsServed f = All IsRetried f.answers

pub write_full-Calm : (buf : List ℕ) → Calm IsServed (write_full buf)
write_full-Calm buf = record {
  at = λ f h. let (returned, quiet) = write_full-IsQuiet buf f h in rw returned (tt, quiet);
}

pub fwrite32-Calm : (v : ℕ) → Calm IsServed (fwrite_little_endian32 v)
unfolding fwrite_little_endian32
fwrite32-Calm v = write_full-Calm (little_endian32 v)

pub fwrite64-Calm : (v : ℕ) → Calm IsServed (fwrite_little_endian64 v)
unfolding fwrite_little_endian64
fwrite64-Calm v = write_full-Calm (little_endian64 v)

pub ruleset calm_rules = (fwrite32-Calm, fwrite64-Calm, Calm-then)
