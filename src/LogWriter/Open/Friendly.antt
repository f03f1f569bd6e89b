-- ===== src/LogWriter/Open/Friendly.antt =====
-- `sparkey_logwriter_create` without compression where the system never fails for good.
use sparkey.Base.{ℕ, ◌*◌, List, All, Bool, true, none, some, ◌≡◌, inl, inr}
use sparkey.ReturnCode.{enoent}
use mathlib.Core.Path.{subst}
use sparkey.Exec.{Outcome, done, ◌>>=◌}
use sparkey.Exec.Calm.{not_thrown}
use sparkey.File.{File, WriteResult}
use sparkey.File.Quiet.{IsRetried, IsServed}
use sparkey.Buf.Add.{buf_init-true}
use sparkey.LogHeader.{LogHeader, compression_none, write_logheader}
use sparkey.LogHeader.Write.{write_logheader-Calm}
use sparkey.Compress.{Codecs, uses_compressor}
use sparkey.LogWriter.Open.{
  Environment, is_enoent, remove_failure, open_failure, rand32, new_header, plan_compression,
  create_from, logwriter_create,
}
use sparkey.LogWriter.Open.Created.{empty_file, headed, header_cases, buffered, at_end}

-- There is memory, the file can be made, and there was none before.
abbrev pub friendly : (identifier : ℕ) → Bool → List WriteResult → Environment
friendly identifier unset answers = record {
  malloc_log = true;
  malloc_compressed = true;
  malloc_file_buf = true;
  malloc_block_buf = true;
  remove = some enoent;
  open_file = none;
  random = some identifier;
  answers = answers;
  unset_flushed = unset;
}

served_headed :
    (h : LogHeader) (answers left : List WriteResult)
    → All IsRetried answers
    → write_logheader h (empty_file answers) ≡ (done tt, headed h left)
    → All IsRetried left
unfolding empty_file headed
served_headed h answers left served e =
    subst (λ (r : Outcome (Unit {0}) × File). All IsRetried r.1.answers) e
      ((write_logheader-Calm h).at (empty_file answers) served).1

create_from-friendly :
    (codecs : Codecs) (identifier block_size : ℕ) (unset : Bool) (answers : List WriteResult)
    → All IsRetried answers
    → (left : List WriteResult) × ((create_from codecs
          (friendly identifier unset answers)
          compression_none
          block_size
          (empty_file answers)).0
        ≡ done (buffered unset (new_header identifier compression_none 0) left))
      × All IsRetried left
unfolding create_from plan_compression uses_compressor remove_failure is_enoent open_failure rand32
    buffered ◌>>=◌
create_from-friendly codecs identifier block_size unset answers served =
    let h = new_header identifier compression_none 0 in
    elim (header_cases h answers) [
      | inr (code, f, e) ↦
          elim (not_thrown IsServed _ code f
            ((write_logheader-Calm h).at (empty_file answers) (unfold empty_file in served)) e) [ ]
      | inl (left, e) ↦ (
        left,
        rw (e, at_end identifier left, buf_init-true (1024 * 1024), buf_init-true 0),
        served_headed h answers left served e,
      )
    ]

pub create_friendly :
    (codecs : Codecs) (identifier block_size : ℕ) (unset : Bool) (answers : List WriteResult)
    → All IsRetried answers
    → (left : List WriteResult) × (logwriter_create codecs
          (friendly identifier unset answers)
          compression_none
          block_size
        ≡ done (buffered unset (new_header identifier compression_none 0) left))
      × All IsRetried left
unfolding logwriter_create empty_file ◌>>=◌
create_friendly codecs identifier block_size unset answers served =
    create_from-friendly codecs identifier block_size unset answers served
