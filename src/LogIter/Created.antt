-- ===== src/LogIter/Created.antt =====
-- A new iterator of a log without compression.
use sparkey.Base.{true, ◌≡◌, refl, inl, arith}
use sparkey.Exec.{done}
use sparkey.LogHeader.{log_header_size}
use sparkey.Compress.{uses_compressor}
use sparkey.LogReader.{LogReader, assert_log_open}
use sparkey.LogIter.{LogIter, fresh_iter, with_buffer, logiter_create}
use sparkey.LogIter.Plain.{IsPlainLog, IsFor}
use sparkey.LogIter.Next.{IsFresh}
use sparkey.LogIter.Seek.{IsLoaded}

pub fresh_iter-IsFor : (garbage : LogIter) (log : LogReader) → IsFor log (fresh_iter garbage log)
unfolding fresh_iter
fresh_iter-IsFor garbage log = record { is_open = refl; same_file = refl }

pub fresh_iter-IsFresh :
    (garbage : LogIter) (log : LogReader)
    → log.header.header_size ≡ log_header_size
    → IsFresh (fresh_iter garbage log) log_header_size
unfolding fresh_iter
fresh_iter-IsFresh garbage log sized = record {
  state = refl;
  position = refl;
  offset = refl;
  len = refl;
  next = sized;
  behind_header = omega arith;
}

pub create_plain :
    (garbage : LogIter) (log : LogReader)
    → IsPlainLog log
    → logiter_create true true garbage log ≡ done (fresh_iter garbage log)
unfolding logiter_create with_buffer assert_log_open uses_compressor
create_plain garbage log l = rw (l.is_open, l.plain) refl

pub fresh_iter-IsLoaded :
    (garbage : LogIter) (log : LogReader) → IsLoaded log (fresh_iter garbage log)
unfolding fresh_iter
fresh_iter-IsLoaded garbage log = record { for = fresh_iter-IsFor garbage log; block = inl refl }
