-- ===== src/LogWriter/Plain.antt =====
-- A writer without compression appends the bytes of each entry to its pending file.
use Prim.Native.Nat.{max}
use sparkey.Base.{
  ℕ, length-append, ◌+◌, ◌^◌, ◌<◌, List, [], ◌++◌, length, take_all, false, ltb, if◌then◌else◌, u64,
  add64, ◌≡◌, refl, ap, ◌∙◌, ◌⊎◌, inl, inr, arith,
}
use sparkey.ReturnCode.{ReturnCode}
use sparkey.Exec.{Outcome, done, thrown, Exec, ◌>>=◌, ◌>>◌}
use sparkey.Vlq.Format.{vlq, write_vlq-vlq}
use sparkey.Buf.{Stream, buf_add}
use sparkey.Buf.Add.{IsValid, pending, push, push-push, buf_add-Adds}
use sparkey.LogHeader.{LogHeader}
use sparkey.Compress.{Codecs, uses_compressor}
use sparkey.Entry.{Entry, put, delete, encode, IsStorable}
use sparkey.LogWriter.{
  LogWriter, magic_value_logwriter, on_stream, assert_writer_open, vlq_buf, datasize, add_plain,
  log_add, logwriter_put, logwriter_delete,
}

-- An open writer of a log without compression; nothing ever goes into its block buffer.
pub record IsPlain (w : LogWriter) : Type 0 where
  pub is_open : w.open_status ≡ magic_value_logwriter
  pub plain : uses_compressor w.header.compression_type ≡ false
  pub stream : IsValid w.stream
  pub no_block : w.block_buf.bytes ≡ []

pub vlq_buf-vlq : (v : ℕ) → v < 2 ^ 64 → vlq_buf v ≡ vlq v
vlq_buf-vlq v h = rw (write_vlq-vlq v h) (take_all (length (vlq v)) (vlq v) (omega arith))

-- What an action on a plain writer does: it appends `bytes` to the pending file, changes the header
-- by `f`, and returns, or it returns the code of an error.
abbrev pub Appends :
    List ℕ → (LogHeader → LogHeader) → LogWriter → Outcome (Unit {0}) × LogWriter → Type 0
Appends bytes f w r =
    ((v : LogWriter) × (r ≡ (done tt, v))
      × (v.header ≡ f w.header)
      × IsPlain v
      × (pending v.stream ≡ push bytes (pending w.stream)))
    ⊎ ((code : ReturnCode) × (v : LogWriter) × (r ≡ (thrown code, v)))

-- The same for an action that touches nothing but the stream.
abbrev Extends : List ℕ → LogWriter → Outcome (Unit {0}) × LogWriter → Type 0
Extends bytes w r =
    ((t : Stream) × (r ≡ (done tt, record w { stream = t }))
      × IsValid t
      × (pending t ≡ push bytes (pending w.stream)))
    ⊎ ((code : ReturnCode) × (v : LogWriter) × (r ≡ (thrown code, v)))

Extends-add :
    (a : List ℕ) (w : LogWriter) → IsValid w.stream → Extends a w (on_stream (buf_add a) w)
Extends-add a w v = elim (buf_add-Adds a w.stream v) [
  | inl (t, e, v', cap, pend) ↦ inl (t, rw e, v', pend)
  | inr (code, t, e) ↦ inr (code, record w { stream = t }, rw e)
]

Extends-then :
    (a b : List ℕ) (m n : Exec LogWriter (Unit {0})) (w : LogWriter)
    → Extends a w (m w)
    → ((t : Stream) → IsValid t → Extends b (record w { stream = t }) (n (record w { stream = t })))
    → Extends (a ++ b) w ((m >> n) w)
unfolding ◌>>=◌
Extends-then a b m n w (inr (code, t, e)) k = inr (code, t, rw e)
Extends-then a b m n w (inl (t, e, v, pend)) k = elim (k t v) [
  | inr (code, u, e') ↦ inr (code, u, rw (e, e'))
  | inl (u, e', v', pend') ↦
      inl (u, rw (e, e'), v', pend' ∙ ap (push b) pend ∙ push-push a b (pending w.stream))
]

add_plain-Extends :
    (codecs : Codecs) (num1 num2 : ℕ) (data1 data2 : List ℕ) (w : LogWriter)
    → num1 < 2 ^ 64
    → num2 < 2 ^ 64
    → IsValid w.stream
    → Extends
        (vlq num1 ++ (vlq num2 ++ (data1 ++ data2)))
        w
        (add_plain codecs num1 num2 data1 data2 w)
unfolding add_plain
add_plain-Extends codecs num1 num2 data1 data2 w h1 h2 v =
    rw (vlq_buf-vlq num1 h1, vlq_buf-vlq num2 h2)
      (Extends-then (vlq num1) _ (on_stream (buf_add (vlq num1))) _ w (Extends-add _ w v) λ t v.
        Extends-then (vlq num2) _ (on_stream (buf_add (vlq num2))) _ (record w { stream = t })
          (Extends-add _ _ v)
          λ t v.
            Extends-then data1 data2 (on_stream (buf_add data1)) (on_stream (buf_add data2))
              (record w { stream = t }) (Extends-add _ _ v)
              λ t v. Extends-add data2 (record w { stream = t }) v)

-- `log_add` without compression.
log_add_plain :
    (codecs : Codecs) (num1 num2 : ℕ) (data1 data2 : List ℕ) (w : LogWriter)
    → num1 < 2 ^ 64
    → num2 < 2 ^ 64
    → IsPlain w
    → ((t : Stream) × (log_add codecs num1 num2 data1 data2 w
          ≡ (done (datasize num1 num2 data1 data2), record w { stream = t }))
        × IsValid t
        × (pending t ≡ push (vlq num1 ++ (vlq num2 ++ (data1 ++ data2))) (pending w.stream)))
      ⊎ ((code : ReturnCode) × (v : LogWriter) × (log_add codecs num1 num2 data1 data2 w
            ≡ (thrown code, v)))
unfolding log_add ◌>>=◌
log_add_plain codecs num1 num2 data1 data2 w h1 h2 p =
    elim (add_plain-Extends codecs num1 num2 data1 data2 w h1 h2 p.stream) [
      | inl (t, e, v, pend) ↦ inl (t, rw (p.plain, e), v, pend)
      | inr (code, v, e) ↦ inr (code, v, rw (p.plain, e))
    ]

datasize-length :
    (num1 num2 : ℕ) (data1 data2 : List ℕ)
    → num1 < 2 ^ 64
    → num2 < 2 ^ 64
    → datasize num1 num2 data1 data2 ≡ u64 (length (vlq num1 ++ (vlq num2 ++ (data1 ++ data2))))
unfolding datasize
datasize-length num1 num2 data1 data2 h1 h2 = omega (
  arith,
  ap (λ (r : List ℕ × ℕ). r.1) (write_vlq-vlq num1 h1),
  ap (λ (r : List ℕ × ℕ). r.1) (write_vlq-vlq num2 h2),
  length-append (vlq num1) (vlq num2 ++ (data1 ++ data2)),
  length-append (vlq num2) (data1 ++ data2),
  length-append data1 data2,
)

-- The header with one more entry counted, `size` bytes long.
abbrev pub counted : Entry → LogHeader → LogHeader
counted (put key value) h = record h {
  num_puts = add64 h.num_puts 1;
  put_size = add64 h.put_size (u64 (length (encode (put key value))));
  max_key_len = max h.max_key_len (length key);
  max_value_len = max h.max_value_len (length value);
}
counted (delete key) h = record h {
  num_deletes = add64 h.num_deletes 1;
  delete_size = add64 h.delete_size (u64 (length (encode (delete key))));
}

-- `sparkey_logwriter_put` or `sparkey_logwriter_delete`, whichever the entry is for.
unfoldable pub add_entry : Codecs → Entry → Exec LogWriter (Unit {0})
add_entry codecs (put key value) = logwriter_put codecs key value
add_entry codecs (delete key) = logwriter_delete codecs key

max-if : (a b : ℕ) → (if ltb a b then b else a) ≡ max a b
max-if a b = ground arith

pub is_open-pass : (w : LogWriter) → IsPlain w → assert_writer_open w ≡ (done tt, w)
unfolding assert_writer_open
is_open-pass w p = rw p.is_open

-- On an open writer without compression, adding an entry whose lengths fit 64 bits appends exactly the
-- bytes of the entry to the pending file, counts it in the header, and leaves the writer open and
-- well-formed; or it returns the code of an error.
pub add_entry-Appends :
    (codecs : Codecs) (e : Entry) (w : LogWriter)
    → IsStorable e
    → IsPlain w
    → Appends (encode e) (counted e) w (add_entry codecs e w)
unfolding add_entry logwriter_put logwriter_delete ◌>>=◌
add_entry-Appends codecs (put key value) w h p =
    let e0 : add64 (length key) 1 ≡ length key + 1 = omega (arith, h.0) in
    elim (log_add_plain codecs (length key + 1) (length value) key value w h.0 h.1 p) [
      | inr (code, v, e) ↦ inr (code, v, rw (is_open-pass w p, e0, e))
      | inl (t, e, v, pend) ↦ inl (
        record w { stream = t; header = counted (put key value) w.header },
        rw
            (
              is_open-pass w p,
              e0,
              e,
              datasize-length (length key + 1) (length value) key value h.0 h.1,
            )
            (rw (
              max-if w.header.max_key_len (length key),
              max-if w.header.max_value_len (length value),
            )),
        refl,
        record { is_open = p.is_open; plain = p.plain; stream = v; no_block = p.no_block },
        pend,
      )
    ]
add_entry-Appends codecs (delete key) w h p =
    elim (log_add_plain codecs 0 (length key) [] key w (omega arith) h p) [
      | inr (code, v, e) ↦ inr (code, v, rw (is_open-pass w p, e))
      | inl (t, e, v, pend) ↦ inl (
        record w { stream = t; header = counted (delete key) w.header },
        rw (is_open-pass w p, e, datasize-length 0 (length key) [] key (omega arith) h),
        refl,
        record { is_open = p.is_open; plain = p.plain; stream = v; no_block = p.no_block },
        pend,
      )
    ]
