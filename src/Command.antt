-- ===== src/Command.antt =====
-- Commands of the program of src/main.c.
pub mod Get
pub mod Rewrite
use sparkey.Base.{ℕ, zero, suc, ◌+◌, ◌-◌, ◌^◌, List, [], length, Bool, ◌==◌, if◌then◌else◌}
use sparkey.Exec.{
  Outcome, done, thrown, fault, out_of_fuel, and_then, Exec, pure, gets, within, continue, ◌>>=◌,
  ◌>>◌,
}
use sparkey.File.{File, write_full}
use sparkey.Compress.{Codecs}
use sparkey.LogReader.{LogReader}
use sparkey.LogIter.{LogIter, is_active, logiter_create}
use sparkey.LogIter.Chunks.{valuechunk}
use sparkey.HashReader.{HashReader, Environment, hash_open, hash_get}

-- The iterator of a command, and a file that it writes.
abbrev pub on_iter : {T A : Type 0} → Exec LogIter A → Exec (LogIter × T) A
on_iter = within (λ s. s.0) (λ s i. (i, s.1))

abbrev pub on_stdout : {A : Type 0} → Exec File A → Exec (LogIter × File) A
on_stdout = within (λ s. s.1) (λ s file. (s.0, file))

-- The `int` that `1 << 31` is becomes this length.
abbrev pub value_maxlen : ℕ
value_maxlen = 2 ^ 64 - 2 ^ 31

-- What `assert` makes of an error: the program exits with 1.
abbrev pub exit_of : Outcome ℕ → Outcome ℕ
exit_of (done exitcode) = done exitcode
exit_of (thrown code) = done 1
exit_of (fault x) = fault x

module _ (codecs : Codecs) where
  -- The loop of `get` that prints a value.
  pub print_value : LogReader → (fuel : ℕ) → Exec (LogIter × File) (Unit {0})
  print_value log zero s = (fault out_of_fuel, s)
  print_value log (suc fuel) s =
      (do
        res ← on_iter (valuechunk codecs log value_maxlen)
        on_stdout (write_full res)
        if length res == 0 then pure tt else print_value log fuel)
        s

  -- `get` with the reader and the iterator. A chunk that is not empty takes a byte of the value at least.
  pub get_with : HashReader → (key : List ℕ) → Exec (LogIter × File) ℕ
  unfolding print_value
  get_with reader key = do
    on_iter (hash_get codecs reader key)
    i ← gets (λ s. s.0)
    if is_active i.state
        then (do print_value reader.log (i.value_remaining + 2); pure 0)
        else pure 2

  get_created : HashReader → (key : List ℕ) → File → Outcome LogIter → Outcome ℕ × File
  unfolding get_with
  get_created reader key stdout (done i) =
      let result = get_with reader key (i, stdout) in (exit_of result.0, result.1.1)
  get_created reader key stdout (thrown c) = (done 1, stdout)
  get_created reader key stdout (fault x) = (fault x, stdout)

  get_opened :
      (malloc_iter malloc_buf : Bool)
      → LogIter
      → (key : List ℕ) → File
      → Outcome HashReader
      → Outcome ℕ × File
  unfolding get_created
  get_opened malloc_iter malloc_buf garbage key stdout (done reader) =
      get_created reader key stdout (logiter_create malloc_iter malloc_buf garbage reader.log)
  get_opened malloc_iter malloc_buf garbage key stdout (thrown c) = (done 1, stdout)
  get_opened malloc_iter malloc_buf garbage key stdout (fault x) = (fault x, stdout)

  -- `get`: the exit code, and the standard output. What is closed at the end is not looked at again.
  unfoldable pub get :
      Environment
      → (malloc_iter malloc_buf : Bool) → LogIter
      → (key : List ℕ) → File
      → Outcome ℕ × File
  unfolding get_opened
  get env malloc_iter malloc_buf garbage key stdout =
      get_opened malloc_iter malloc_buf garbage key stdout (hash_open env)
