-- ===== src/LogWriter/Calm.antt =====
-- The writer of a log without compression where the system never fails for good: no call fails.
use sparkey.Base.{ℕ, List, [], ◌∷◌, length, Bool, true, false, ltb, ◌==◌, ◌≡◌, ap}
use sparkey.Exec.{done, Exec, pure, ◌>>=◌}
use sparkey.Exec.Calm.{IsCalm, bind-IsCalm, gets-IsCalm}
use sparkey.File.{File, seek}
use sparkey.File.Quiet.{IsServed as IsServedFile}
use sparkey.Buf.{Stream, buf_used, on_file, buf_flushfile, buf_add}
use sparkey.Buf.Calm.{IsServed, buf_add-IsCalm, buf_flushfile-IsCalm}
use sparkey.LogHeader.{write_logheader}
use sparkey.LogHeader.Write.{write_logheader-Calm}
use sparkey.Compress.{Codecs, uses_compressor}
use sparkey.Entry.{Entry, put, delete}
use sparkey.LogWriter.{
  LogWriter, magic_value_logwriter, on_stream, assert_writer_open, vlq_buf, datasize, when,
  count_put, count_delete, flush_compressed, add_plain, log_add, logwriter_put, logwriter_delete,
  logwriter_flush,
}
use sparkey.LogWriter.Plain.{add_entry}
use sparkey.LogWriter.Session.{add_entries, write_log}

-- An open writer without compression, on a system that never fails for good.
pub record IsServing (w : LogWriter) : Type 0 where
  pub is_open : w.open_status ≡ magic_value_logwriter
  pub plain : uses_compressor w.header.compression_type ≡ false
  pub no_block : w.block_buf.bytes ≡ []
  pub served : IsServed w.stream

on_stream-IsCalm :
    {A : Type 0} (m : Exec Stream A) (w : LogWriter)
    → IsServing w
    → IsCalm IsServed (m w.stream)
    → IsCalm IsServing (on_stream m w)
on_stream-IsCalm m w p c =
    (c.0, record { is_open = p.is_open; plain = p.plain; no_block = p.no_block; served = c.1 })

assert_writer_open-IsCalm : (w : LogWriter) → IsServing w → IsCalm IsServing (assert_writer_open w)
unfolding assert_writer_open
assert_writer_open-IsCalm w p =
    let open_now : (w.open_status == magic_value_logwriter) ≡ true =
      ap (λ n. n == magic_value_logwriter) p.is_open in
    rw open_now (tt, p)

on_file-IsCalm :
    (m : Exec File (Unit {0})) (w : LogWriter)
    → IsServing w
    → IsCalm IsServedFile (m w.stream.file)
    → IsCalm IsServing (on_stream (on_file m) w)
on_file-IsCalm m w p c = on_stream-IsCalm (on_file m) w p c

add-IsCalm :
    (input : List ℕ) (w : LogWriter) → IsServing w → IsCalm IsServing (on_stream (buf_add input) w)
add-IsCalm input w p = on_stream-IsCalm (buf_add input) w p (buf_add-IsCalm input w.stream p.served)

module _ (codecs : Codecs) where
  add_plain-IsCalm :
      (num1 num2 : ℕ) (data1 data2 : List ℕ) (w : LogWriter)
      → IsServing w
      → IsCalm IsServing (add_plain codecs num1 num2 data1 data2 w)
  unfolding add_plain
  add_plain-IsCalm num1 num2 data1 data2 w p =
      bind-IsCalm IsServing _ _ w (add-IsCalm (vlq_buf num1) w p) λ a t q.
        bind-IsCalm IsServing _ _ t (add-IsCalm (vlq_buf num2) t q)
          λ b u r. bind-IsCalm IsServing _ _ u (add-IsCalm data1 u r) λ c v s. add-IsCalm data2 v s

  log_add-IsCalm :
      (num1 num2 : ℕ) (data1 data2 : List ℕ) (w : LogWriter)
      → IsServing w
      → IsCalm IsServing (log_add codecs num1 num2 data1 data2 w)
  unfolding log_add ◌>>=◌
  log_add-IsCalm num1 num2 data1 data2 w p = rw p.plain (
      bind-IsCalm IsServing (add_plain codecs num1 num2 data1 data2)
        (λ u. pure (datasize num1 num2 data1 data2)) w (add_plain-IsCalm num1 num2 data1 data2 w p)
        (λ u t q. (tt, q)))

  add_entry-IsCalm :
      (e : Entry) (w : LogWriter) → IsServing w → IsCalm IsServing (add_entry codecs e w)
  unfolding add_entry logwriter_put logwriter_delete count_put count_delete
  add_entry-IsCalm (put key value) w p =
      bind-IsCalm IsServing _ _ w (assert_writer_open-IsCalm w p) λ a t q.
        bind-IsCalm IsServing _ _ t (log_add-IsCalm _ _ key value t q) λ size u r. (
          tt,
          record { is_open = r.is_open; plain = r.plain; no_block = r.no_block; served = r.served },
        )
  add_entry-IsCalm (delete key) w p =
      bind-IsCalm IsServing _ _ w (assert_writer_open-IsCalm w p) λ a t q.
        bind-IsCalm IsServing _ _ t (log_add-IsCalm _ _ [] key t q) λ size u r. (
          tt,
          record { is_open = r.is_open; plain = r.plain; no_block = r.no_block; served = r.served },
        )

  skip_block-IsCalm :
      (m : Exec LogWriter (Unit {0})) (w : LogWriter)
      → IsServing w
      → IsCalm IsServing (when (ltb 0 (buf_used w.block_buf)) m w)
  unfolding when
  skip_block-IsCalm m w p =
      let none_left : ltb 0 (length w.block_buf.bytes) ≡ false =
        ap (λ l. ltb 0 (length l)) p.no_block in
      rw none_left (tt, p)

  when-IsCalm :
      (b : Bool) (w : LogWriter)
      → IsServing w
      → IsCalm IsServing (when b (on_stream buf_flushfile) w)
  unfolding when
  when-IsCalm true w p = on_stream-IsCalm buf_flushfile w p (buf_flushfile-IsCalm w.stream p.served)
  when-IsCalm false w p = (tt, p)

  flush-IsCalm : (w : LogWriter) → IsServing w → IsCalm IsServing (logwriter_flush codecs w)
  unfolding logwriter_flush
  flush-IsCalm w p = bind-IsCalm IsServing _ _ w (assert_writer_open-IsCalm w p) λ a w1 p1.
      gets-IsCalm IsServing _ _ w1 (
        bind-IsCalm IsServing _ _ w1 (skip_block-IsCalm (flush_compressed codecs) w1 p1) λ b w2 p2.
          gets-IsCalm IsServing _ _ w2 (
            bind-IsCalm IsServing _ _ w2 (when-IsCalm _ w2 p2) λ c w3 p3.
              gets-IsCalm IsServing _ _ w3 (
                bind-IsCalm IsServing _ _ w3
                  (
                    tt,
                    record {
                      is_open = p3.is_open;
                      plain = p3.plain;
                      no_block = p3.no_block;
                      served = p3.served;
                    },
                  )
                  λ d w4 p4.
                    bind-IsCalm IsServing _ _ w4
                      (on_file-IsCalm (λ f. (done tt, seek 0 f)) w4 p4 (tt, p4.served))
                      λ e w5 p5. gets-IsCalm IsServing _ _ w5 (
                        bind-IsCalm IsServing _ _ w5
                          (on_file-IsCalm (write_logheader w5.header) w5 p5
                            ((write_logheader-Calm w5.header).at w5.stream.file p5.served))
                          λ g w6 p6.
                            on_file-IsCalm (λ f. (done tt, seek w3.stream.file.offset f)) w6 p6
                              (tt, p6.served)))))

  add_entries-IsCalm :
      (es : List Entry) (w : LogWriter) → IsServing w → IsCalm IsServing (add_entries codecs es w)
  unfolding add_entries
  add_entries-IsCalm [] w p = (tt, p)
  add_entries-IsCalm (e ∷ es) w p =
      bind-IsCalm IsServing _ _ w (add_entry-IsCalm e w p) λ a t q. add_entries-IsCalm es t q

  pub write_log-IsCalm :
      (es : List Entry) (w : LogWriter) → IsServing w → IsCalm IsServing (write_log codecs es w)
  unfolding write_log
  write_log-IsCalm es w p =
      bind-IsCalm IsServing _ _ w (add_entries-IsCalm es w p) λ a t q. flush-IsCalm t q
