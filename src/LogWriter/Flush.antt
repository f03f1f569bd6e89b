-- ===== src/LogWriter/Flush.antt =====
-- `sparkey_logwriter_flush` on a writer without compression: the pending bytes reach the file, and the
-- header at the start of the file is brought up to date.
use sparkey.Base.{
  ℕ, ◌+◌, ◌≤◌, List, [], ◌∷◌, length, take, Bool, false, ltb, Bool-cases, ltb→le, ◌≡◌, refl, sym,
  ap, ◌∙◌, ◌⊎◌, inl, inr, arith,
}
use sparkey.ReturnCode.{ReturnCode}
use sparkey.Exec.{done, thrown, Exec, ◌>>=◌}
use sparkey.File.{WriteResult, overwrite, accept, seek}
use sparkey.File.Write.{IsPlaced}
use sparkey.File.Overwrite.{overwrite_nothing, overwrite_keeps}
use sparkey.Buf.{Buf, Stream, buf_used, rewind, buf_flushfile}
use sparkey.Buf.Add.{pending, flush_cases}
use sparkey.LogHeader.{LogHeader}
use sparkey.LogHeader.Write.{log_header_bytes, write_logheader-Writes}
use sparkey.Compress.{Codecs}
use sparkey.LogWriter.{LogWriter, on_stream, when, flush_compressed, logwriter_flush}
use sparkey.LogWriter.Plain.{IsPlain, is_open-pass}

-- A stream with nothing in its buffer, and the pending file of `s`.
record Drained (s t : Stream) : Type 0 where
  empty : t.buf ≡ rewind s.buf
  contents : t.file.contents ≡ (pending s).0
  offset : t.file.offset ≡ (pending s).1
  placed : IsPlaced t.file

drain : Bool → Exec LogWriter (Unit {0})
drain b = when b (on_stream buf_flushfile)

nil_of_length : (l : List ℕ) → length l ≤ 0 → l ≡ []
nil_of_length [] h = refl
nil_of_length (x ∷ l) h = absurd (omega arith)

pending-Drained :
    (s t : Stream) → t.buf ≡ rewind s.buf → IsPlaced t.file → pending t ≡ pending s → Drained s t
pending-Drained s t b p e = record {
  empty = b;
  contents =
      sym (overwrite_nothing t.file.contents t.file.offset p)
      ∙ ap (λ (c : Buf). overwrite t.file.contents t.file.offset c.bytes) (sym b)
      ∙ ap (λ (q : List ℕ × ℕ). q.0) e;
  offset = omega (arith, ap (λ (q : List ℕ × ℕ). q.1) e, ap (λ (c : Buf). length c.bytes) b);
  placed = p;
}

drain_cases :
    (w : LogWriter)
    → IsPlaced w.stream.file
    → ((t : Stream) × (drain (ltb 0 (buf_used w.stream.buf)) w ≡ (done tt, record w { stream = t }))
        × Drained w.stream t)
      ⊎ ((code : ReturnCode) × (v : LogWriter) × (drain (ltb 0 (buf_used w.stream.buf)) w
            ≡ (thrown code, v)))
unfolding drain when
drain_cases w h = elim (Bool-cases (ltb 0 (buf_used w.stream.buf))) [
  | inr none_left ↦
      let e = nil_of_length w.stream.buf.bytes (ltb→le _ _ none_left) in
      inl (
        w.stream,
        rw none_left,
        pending-Drained w.stream w.stream (λ i. record w.stream.buf { bytes = e i }) h refl,
      )
  | inl some_left ↦ elim (flush_cases w.stream h) [
    | inr (code, t, e) ↦ inr (code, record w { stream = t }, rw (some_left, e))
    | inl (t, e, b, p, same) ↦ inl (t, rw (some_left, e), pending-Drained w.stream t b p same)
  ]
]

skip_block :
    (m : Exec LogWriter (Unit {0})) (w : LogWriter)
    → w.block_buf.bytes ≡ []
    → when (ltb 0 (buf_used w.block_buf)) m w ≡ (done tt, w)
unfolding when
skip_block m w e =
    let none_left : ltb 0 (length w.block_buf.bytes) ≡ false = ap (λ l. ltb 0 (length l)) e in
    rw none_left

-- The header that a flush writes.
abbrev pub updated : LogWriter → LogHeader
updated w = record w.header { data_end = (pending w.stream).1 }

-- What a flush leaves: the pending contents under the updated header, and an open writer whose buffer
-- is empty and whose file stands where it stood.
pub record Flushed (w v : LogWriter) : Type 0 where
  pub header : v.header ≡ updated w
  pub contents :
      v.stream.file.contents ≡ overwrite (pending w.stream).0 0 (log_header_bytes (updated w))
  pub pends : pending v.stream ≡ (v.stream.file.contents, (pending w.stream).1)
  pub plain : IsPlain v

-- What the last steps of the flush do to a drained writer: `left` are the answers that remain.
abbrev ended : LogWriter → Stream → LogHeader
ended w t = record w.header { data_end = t.file.offset }

rewritten : LogWriter → Stream → List WriteResult → LogWriter
rewritten w t left = record w {
  header = ended w t;
  stream = record t {
    file = record t.file {
      contents = overwrite t.file.contents 0 (log_header_bytes (ended w t));
      offset = t.file.offset;
      answers = left;
    };
  };
}

rewritten-Flushed :
    (w : LogWriter) (t : Stream) (left : List WriteResult)
    → IsPlain w
    → Drained w.stream t
    → Flushed w (rewritten w t left)
unfolding rewritten
rewritten-Flushed w t left p d =
    let same : ended w t ≡ updated w = ap (λ n. record w.header { data_end = n }) d.offset in
    let header = log_header_bytes (ended w t) in
    let file = overwrite t.file.contents 0 header in
    let bytes : t.buf.bytes ≡ [] = ap (λ (c : Buf). c.bytes) d.empty in
    let fits : t.file.offset ≤ length file =
      omega (arith, d.placed, overwrite_keeps t.file.contents 0 header) in
    record {
      header = same;
      contents =
          ap (λ c. overwrite c 0 header) d.contents
          ∙ ap (λ h. overwrite (pending w.stream).0 0 (log_header_bytes h)) same;
      pends =
          ap (λ l. (overwrite file t.file.offset l, t.file.offset + length l)) bytes
          ∙ ap (λ c. (c, t.file.offset + 0)) (overwrite_nothing file t.file.offset fits)
          ∙ (let e : t.file.offset + 0 ≡ (pending w.stream).1 = omega (arith, d.offset) in
              ap (λ n. (file, n)) e);
      plain = record {
        is_open = p.is_open;
        plain = p.plain;
        stream = record {
          room = rw d.empty p.stream.room;
          within_capacity = rw d.empty (omega arith);
          placed = fits;
        };
        no_block = p.no_block;
      };
    }

-- A flush of an open writer without compression leaves the file with the updated header and, behind
-- it, every byte added so far, and the writer open and ready for more; or it returns the code of an
-- error.
pub flush-Flushed :
    (codecs : Codecs) (w : LogWriter)
    → IsPlain w
    → ((v : LogWriter) × (logwriter_flush codecs w ≡ (done tt, v)) × Flushed w v)
      ⊎ ((code : ReturnCode) × (v : LogWriter) × (logwriter_flush codecs w ≡ (thrown code, v)))
unfolding logwriter_flush drain ◌>>=◌
flush-Flushed codecs w p = elim (drain_cases w p.stream.placed) [
  | inr (code, v, e) ↦
      inr (code, v, rw (is_open-pass w p, skip_block (flush_compressed codecs) w p.no_block, e))
  | inl (t, e, d) ↦ elim ((write_logheader-Writes (ended w t)).at (seek 0 t.file) (omega arith)) [
    | inr (code, k, left, l, e') ↦ inr (
      code,
      record w {
        header = ended w t;
        stream = record t {
          file = record (accept (seek 0 t.file) (take k (log_header_bytes (ended w t)))) {
            answers = left;
          };
        };
      },
      rw (is_open-pass w p, skip_block (flush_compressed codecs) w p.no_block, e, e'),
    )
    | inl (left, e') ↦ inl (
      rewritten w t left,
      rw (is_open-pass w p, skip_block (flush_compressed codecs) w p.no_block, e, e')
          (unfold rewritten in refl),
      rewritten-Flushed w t left p d,
    )
  ]
]
