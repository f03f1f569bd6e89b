-- ===== src/LogWriter/Open/Created.antt =====
-- What `sparkey_logwriter_create` makes of a log without compression.
use sparkey.Base.{
  ℕ, ◌+◌, ◌*◌, List, [], ◌++◌, length, Bool, Bool-cases, true, false, not, ◌==◌, Option, none, some,
  append-nil, length-append, ◌≡◌, refl, sym, ap, ◌∙◌, ◌⊎◌, inl, inr, arith,
}
use sparkey.ReturnCode.{ReturnCode, Errno, remove_returncode, internal_error}
use sparkey.Exec.{Outcome, done, thrown, Exec, throw_if, ◌>>=◌, ◌>>◌}
use sparkey.File.{File, WriteResult, accept}
use sparkey.File.Overwrite.{overwrite_end, overwrite_nothing, overwrite_reaches}
use sparkey.Buf.Add.{buf_init_cases}
use sparkey.LogHeader.{LogHeader, log_header_size, compression_none, write_logheader}
use sparkey.LogHeader.Write.{log_header_bytes, length-log_header_bytes, write_logheader-Writes}
use sparkey.Compress.{Codecs, uses_compressor}
use sparkey.LogWriter.{LogWriter}
use sparkey.LogWriter.Plain.{IsPlain}
use sparkey.LogWriter.Session.{HasBody}
use sparkey.LogWriter.Open.{
  Environment, is_enoent, remove_failure, open_failure, rand32, new_header, new_writer,
  plan_compression, create_from, logwriter_create,
}

-- The call leaves `s` as it is and returns `a`, or it fails.
abbrev Returns : {A : Type 0} → File → Outcome A × File → Type 0
Returns {A} s r = ((a : A) × (r ≡ (done a, s))) ⊎ ((code : ReturnCode) × (r ≡ (thrown code, s)))

remove_cases : (e : Option Errno) (f : File) → Returns f (remove_failure e f)
unfolding remove_failure
remove_cases none f = inl (tt, refl)
remove_cases (some e) f = elim (Bool-cases (is_enoent e)) [
  | inl is ↦ inl (tt, rw is)
  | inr is_not ↦ inr (remove_returncode e, rw is_not)
]

open_cases : (e : Option Errno) (f : File) → Returns f (open_failure e f)
unfolding open_failure
open_cases none f = inl (tt, refl)
open_cases (some e) f = inr (_, refl)

rand_cases : (n : Option ℕ) (f : File) → Returns f (rand32 n f)
unfolding rand32
rand_cases none f = inr (_, refl)
rand_cases (some n) f = inl (n, refl)

malloc_cases :
    (ok : Bool) (m : Exec File LogWriter) (f : File)
    → ((throw_if (not ok) internal_error >> m) f ≡ m f)
      ⊎ ((throw_if (not ok) internal_error >> m) f ≡ (thrown internal_error, f))
unfolding ◌>>=◌
malloc_cases true m f = inl refl
malloc_cases false m f = inr refl

-- A new writer of an empty log.
abbrev pub IsNew : LogWriter → Type 0
IsNew w =
    (identifier : ℕ) × (w.header ≡ new_header identifier compression_none 0)
    × IsPlain w
    × HasBody [] w

unfoldable pub empty_file : List WriteResult → File
empty_file answers = record { contents = []; offset = 0; answers = answers }

-- The file after the header is written.
unfoldable pub headed : LogHeader → List WriteResult → File
headed h left = record (accept (empty_file left) (log_header_bytes h)) { answers = left }

pub header_cases :
    (h : LogHeader) (answers : List WriteResult)
    → ((left : List WriteResult) × (write_logheader h (empty_file answers)
          ≡ (done tt, headed h left)))
      ⊎ ((code : ReturnCode) × (f : File) × (write_logheader h (empty_file answers)
            ≡ (thrown code, f)))
unfolding empty_file headed
header_cases h answers = elim ((write_logheader-Writes h).at (empty_file answers) (omega arith)) [
  | inl (left, e) ↦ inl (left, e)
  | inr (code, k, left, le, e) ↦ inr (code, _, e)
]

unfoldable pub buffered : Bool → LogHeader → List WriteResult → LogWriter
buffered unset h left =
    new_writer unset h 0 (record { capacity = 1024 * 1024; bytes = [] })
      (record { capacity = 0; bytes = [] }) (headed h left)

pub buffered-IsNew :
    (unset : Bool) (identifier : ℕ) (left : List WriteResult)
    → IsNew (buffered unset (new_header identifier compression_none 0) left)
unfolding buffered new_writer headed empty_file uses_compressor new_header
buffered-IsNew unset identifier left =
    let h = new_header identifier compression_none 0 in
    let f = headed h left in
    let bytes = log_header_bytes h in
    let written : f.contents ≡ bytes ++ [] =
      overwrite_end [] bytes 0 refl ∙ sym (append-nil bytes) in
    let start : 0 + length bytes + 0 ≡ length (bytes ++ []) =
      omega (arith, length-append bytes []) in
    (
      identifier,
      refl,
      record {
        is_open = refl;
        plain = refl;
        stream = record {
          room = omega arith;
          within_capacity = omega arith;
          placed = overwrite_reaches [] 0 bytes;
        };
        no_block = refl;
      },
      (
        h,
        λ i. (
          (overwrite_nothing f.contents f.offset (overwrite_reaches [] 0 bytes) ∙ written) i,
          start i,
        ),
      ),
    )

pub at_end :
    (identifier : ℕ) (left : List WriteResult)
    → ((headed (new_header identifier compression_none 0) left).offset == log_header_size) ≡ true
unfolding headed empty_file
at_end identifier left = rw (length-log_header_bytes (new_header identifier compression_none 0))

abbrev Made : Outcome LogWriter → Type 0
Made r = ((w : LogWriter) × (r ≡ done w) × IsNew w) ⊎ ((code : ReturnCode) × (r ≡ thrown code))

create_from-Made :
    (codecs : Codecs) (env : Environment) (block_size : ℕ)
    → Made (create_from codecs env compression_none block_size (empty_file env.answers)).0
unfolding create_from plan_compression uses_compressor buffered ◌>>=◌
create_from-Made codecs env block_size = elim (remove_cases env.remove (empty_file env.answers)) [
  | inr (code, e) ↦ inr (code, rw e)
  | inl (u, e1) ↦ elim (open_cases env.open_file (empty_file env.answers)) [
    | inr (code, e) ↦ inr (code, rw (e1, e))
    | inl (u, e2) ↦ elim (rand_cases env.random (empty_file env.answers)) [
      | inr (code, e) ↦ inr (code, rw (e1, e2, e))
      | inl (identifier, e3) ↦
          elim (header_cases (new_header identifier compression_none 0) env.answers) [
            | inr (code, f, e) ↦ inr (code, rw (e1, e2, e3, e))
            | inl (left, e4) ↦ elim (buf_init_cases env.malloc_file_buf (1024 * 1024)) [
              | inr e ↦ inr (internal_error, rw (e1, e2, e3, e4, at_end identifier left, e))
              | inl e5 ↦ elim (buf_init_cases env.malloc_block_buf 0) [
                | inr e ↦ inr (internal_error, rw (e1, e2, e3, e4, at_end identifier left, e5, e))
                | inl e6 ↦ inl (
                  buffered env.unset_flushed (new_header identifier compression_none 0) left,
                  rw (e1, e2, e3, e4, at_end identifier left, e5, e6),
                  buffered-IsNew env.unset_flushed identifier left,
                )
              ]
            ]
          ]
    ]
  ]
]

-- A new log without compression: whatever the system answers, either the call returns a writer that
-- is open, with the header of an empty log and a file that will hold that header and nothing else, or
-- it returns the code of an error.
pub create-IsNew :
    (codecs : Codecs) (env : Environment) (block_size : ℕ)
    → ((w : LogWriter) × (logwriter_create codecs env compression_none block_size ≡ done w)
        × IsNew w)
      ⊎ ((code : ReturnCode) × (logwriter_create codecs env compression_none block_size
            ≡ thrown code))
unfolding logwriter_create empty_file
create-IsNew codecs env block_size =
    let rest = create_from codecs env compression_none block_size in
    elim (malloc_cases env.malloc_log rest (empty_file env.answers)) [
      | inr e ↦ inr (internal_error, ap (λ r. r.0) e)
      | inl e ↦ elim (create_from-Made codecs env block_size) [
        | inr (code, e') ↦ inr (code, ap (λ r. r.0) e ∙ e')
        | inl (w, e', new) ↦ inl (w, ap (λ r. r.0) e ∙ e', new)
      ]
    ]
