-- ===== src/LogWriter/Open.antt =====
-- `sparkey_logwriter_create` and `sparkey_logwriter_append`.
pub mod Created
pub mod Friendly
use sparkey.Base.{
  ℕ, ◌*◌, ◌^◌, List, [], Bool, true, false, not, ltb, ◌==◌, Option, none, some, if◌then◌else◌, ◌⊎◌,
  inl, inr, ◌≡◌, refl,
}
use sparkey.ReturnCode.{
  Errno, enoent, remove_returncode, create_returncode, internal_error, wrong_log_major_version,
  unsupported_log_minor_version, invalid_compression_block_size,
}
use sparkey.Exec.{
  Outcome, done, thrown, fault, Exec, pure, throw, lift, gets, throw_if, continue, ◌>>=◌, ◌>>◌,
}
use sparkey.File.{File, WriteResult, seek}
use sparkey.Buf.{Buf, Stream, buf_init}
use sparkey.LogHeader.{
  LogHeader, log_major_version, log_minor_version, log_header_size, load_logheader, write_logheader,
}
use sparkey.Compress.{Codecs, max_compressed_size, uses_compressor}
use sparkey.LogWriter.{LogWriter, magic_value_logwriter}

-- What the system answers during a call: whether each `malloc` gives memory, the `errno` of `remove`
-- and of `open` where they fail, the number that `rand32` reads, the answers of `write`, and what `malloc` leaves in the field `flushed`, which is
-- not set.
pub record Environment : Type 0 where
  pub malloc_log : Bool
  pub malloc_compressed : Bool
  pub malloc_file_buf : Bool
  pub malloc_block_buf : Bool
  pub remove : Option Errno
  pub open_file : Option Errno
  pub random : Option ℕ
  pub answers : List WriteResult
  pub unset_flushed : Bool

unfoldable pub is_enoent : Errno → Bool
is_enoent enoent = true
is_enoent _ = false

remove_failure : Option Errno → Exec File (Unit {0})
unfolding is_enoent
remove_failure none = pure tt
remove_failure (some e) = throw_if (not (is_enoent e)) (remove_returncode e)

open_failure : Option Errno → Exec File (Unit {0})
open_failure none = pure tt
open_failure (some e) = throw (create_returncode e)

-- `rand32`
unfoldable pub rand32 : {S : Type 0} → Option ℕ → Exec S ℕ
rand32 none = throw internal_error
rand32 (some n) = pure n

-- The header of a new log. The source leaves `header_size` unset, which no writer reads; here it has
-- the value that a load gives.
unfoldable pub new_header : (identifier type block_size : ℕ) → LogHeader
new_header identifier type block_size = record {
  major_version = log_major_version;
  minor_version = log_minor_version;
  file_identifier = identifier;
  num_puts = 0;
  num_deletes = 0;
  data_end = log_header_size;
  max_key_len = 0;
  max_value_len = 0;
  delete_size = 0;
  compression_type = type;
  compression_block_size = block_size;
  put_size = 0;
  header_size = log_header_size;
  max_entries_per_block = 0;
}

-- Without compression the source leaves `max_compressed_size` unset, which nothing then reads.
unfoldable pub new_writer : Bool → LogHeader → ℕ → Buf → Buf → File → LogWriter
new_writer unset_flushed header size file_buf block_buf file = record {
  open_status = magic_value_logwriter;
  header = header;
  block_buf = block_buf;
  max_compressed_size = size;
  stream = record { buf = file_buf; file = file };
  flushed = unset_flushed;
  entry_count = 0;
}

contents_of : Errno ⊎ List ℕ → List ℕ
contents_of (inl e) = []
contents_of (inr contents) = contents

module _ (codecs : Codecs) where
  -- The size of the scratch buffer, and the block size, which is 0 without compression.
  plan_compression : Bool → (type block_size : ℕ) → Exec File (ℕ × ℕ)
  plan_compression malloc_compressed type block_size =
      if uses_compressor type
      then (do
        throw_if (ltb block_size 10) invalid_compression_block_size
        size ← lift (max_compressed_size codecs type block_size)
        throw_if (not malloc_compressed) internal_error
        pure (size, block_size))
      else pure (0, 0)

  -- The state is the file; it is new and empty from `open` on. A block size below 0 is not modelled.
  create_from : Environment → (type block_size : ℕ) → Exec File LogWriter
  unfolding remove_failure open_failure rand32 plan_compression
  create_from env type block_size = do
    (size, block) ← plan_compression env.malloc_compressed type block_size
    remove_failure env.remove
    open_failure env.open_file
    identifier ← rand32 env.random
    let header = new_header identifier type block
    write_logheader header
    pos ← gets (λ f. f.offset)
    throw_if (not (pos == log_header_size)) internal_error
    file_buf ← lift (buf_init env.malloc_file_buf (1024 * 1024))
    block_buf ← lift (buf_init env.malloc_block_buf block)
    file ← gets (λ f. f)
    pure (new_writer env.unset_flushed header size file_buf block_buf file)

  pub logwriter_create : Environment → (type block_size : ℕ) → Outcome LogWriter
  unfolding create_from
  logwriter_create env type block_size =
      ((throw_if (not env.malloc_log) internal_error >> create_from env type block_size)
        (record { contents = []; offset = 0; answers = env.answers })).0

  -- The writer of an existing log, whose bytes are `contents`. Here `malloc` of the scratch buffer is
  -- not checked.
  append_to : Environment → LogHeader → Exec File LogWriter
  unfolding open_failure plan_compression
  append_to env header = do
    throw_if (not (header.major_version == log_major_version)) wrong_log_major_version
    throw_if (not (header.minor_version == log_minor_version)) unsupported_log_minor_version
    (size, block) ← plan_compression true header.compression_type header.compression_block_size
    open_failure env.open_file
    file_buf ← lift (buf_init env.malloc_file_buf (1024 * 1024))
    block_buf ← lift (buf_init env.malloc_block_buf block)
    file ← gets (λ f. seek header.data_end f)
    pure (
        new_writer env.unset_flushed (record header { compression_block_size = block }) size
          file_buf block_buf file)

  append_loaded : Environment → List ℕ → Outcome LogHeader → Outcome LogWriter
  append_loaded env contents (done header) =
      (append_to env header (record { contents = contents; offset = 0; answers = env.answers })).0
  append_loaded env contents (thrown c) = thrown c
  append_loaded env contents (fault x) = fault x

  -- `fopen` gives the bytes of the file, or `errno`.
  pub logwriter_append : Environment → Errno ⊎ List ℕ → Outcome LogWriter
  unfolding append_loaded append_to contents_of
  logwriter_append env fopen =
      if env.malloc_log
      then append_loaded env (contents_of fopen) (load_logheader fopen)
      else thrown internal_error
