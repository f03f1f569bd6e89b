-- ===== src/LogWriter/Session.antt =====
-- A client that adds entries to a log without compression and flushes it.
use sparkey.Base.{
  ℕ, ◌+◌, List, [], ◌∷◌, ◌++◌, length, length-append, append_assoc, append-nil, All, ◌≡◌, refl, sym,
  ap, ◌∙◌, ◌⊎◌, inl, inr, arith,
}
use sparkey.ReturnCode.{ReturnCode}
use sparkey.Exec.{done, thrown, Exec, pure, ◌>>=◌, ◌>>◌}
use sparkey.File.{overwrite}
use sparkey.File.Overwrite.{overwrite_start, overwrite_end}
use sparkey.Buf.Add.{pending, push, push-push}
use sparkey.LogHeader.{LogHeader, log_header_size}
use sparkey.LogHeader.Write.{log_header_bytes, length-log_header_bytes}
use sparkey.Compress.{Codecs}
use sparkey.Entry.{Entry, encode, encode_all, IsStorable}
use sparkey.LogWriter.{LogWriter, logwriter_flush}
use sparkey.LogWriter.Plain.{IsPlain, Appends, counted, add_entry, add_entry-Appends}
use sparkey.LogWriter.Flush.{Flushed, updated, flush-Flushed}

unfoldable pub add_entries : Codecs → List Entry → Exec LogWriter (Unit {0})
add_entries codecs [] = pure tt
add_entries codecs (e ∷ es) = add_entry codecs e >> add_entries codecs es

unfoldable pub write_log : Codecs → List Entry → Exec LogWriter (Unit {0})
write_log codecs es = add_entries codecs es >> logwriter_flush codecs

abbrev pub counted_all : List Entry → LogHeader → LogHeader
counted_all [] h = h
counted_all (e ∷ es) h = counted_all es (counted e h)

push_nothing : (w : LogWriter) → IsPlain w → pending w.stream ≡ push [] (pending w.stream)
push_nothing w p =
    let f = w.stream.file in
    let b = w.stream.buf.bytes in
    ap (λ l. push l (f.contents, f.offset)) (sym (append-nil b))
    ∙ sym (push-push b [] (f.contents, f.offset))

add_entries-Appends :
    (codecs : Codecs) (es : List Entry) (w : LogWriter)
    → All IsStorable es
    → IsPlain w
    → Appends (encode_all es) (counted_all es) w (add_entries codecs es w)
unfolding add_entries ◌>>=◌
add_entries-Appends codecs [] w h p = inl (w, refl, refl, p, push_nothing w p)
add_entries-Appends codecs (x ∷ es) w h p = elim (add_entry-Appends codecs x w h.0 p) [
  | inr (code, v, e) ↦ inr (code, v, rw e)
  | inl (v, e, head, plain, pend) ↦ elim (add_entries-Appends codecs es v h.1 plain) [
    | inr (code, u, e') ↦ inr (code, u, rw (e, e'))
    | inl (u, e', head', plain', pend') ↦ inl (
      u,
      rw (e, e'),
      head' ∙ ap (counted_all es) head,
      plain',
      pend'
          ∙ ap (push (encode_all es)) pend
          ∙ push-push (encode x) (encode_all es) (pending w.stream),
    )
  ]
]

-- The pending file of `w` is a log: some header, and `body` behind it.
abbrev pub HasBody : List ℕ → LogWriter → Type 0
HasBody body w =
    (h : LogHeader) × (pending w.stream
      ≡ (log_header_bytes h ++ body, length (log_header_bytes h ++ body)))

-- The header after adding `es` and flushing: the entries are counted, and the data ends behind them.
abbrev pub final_header : List Entry → List ℕ → LogWriter → LogHeader
final_header es body w = record (counted_all es w.header) {
  data_end = log_header_size + length (body ++ encode_all es);
}

pub record Ended (es : List Entry) (body : List ℕ) (w v : LogWriter) : Type 0 where
  pub header : v.header ≡ final_header es body w
  pub contents :
      v.stream.file.contents ≡ log_header_bytes (final_header es body w) ++ (body ++ encode_all es)
  pub plain : IsPlain v
  pub body_kept : HasBody (body ++ encode_all es) v

pushed_body :
    (h : LogHeader) (body input : List ℕ)
    → push input (log_header_bytes h ++ body, length (log_header_bytes h ++ body))
      ≡ (log_header_bytes h ++ (body ++ input), log_header_size + length (body ++ input))
pushed_body h body input =
    let bytes = log_header_bytes h in
    let joined = overwrite_end (bytes ++ body) input _ refl ∙ append_assoc bytes body input in
    let total : length (bytes ++ body) + length input ≡ log_header_size + length (body ++ input) =
      omega
        (arith, length-append bytes body, length-append body input, length-log_header_bytes h) in
    λ i. (joined i, total i)

Flushed-Ended :
    (es : List Entry) (body : List ℕ) (w u v : LogWriter)
    → HasBody body w
    → u.header ≡ counted_all es w.header
    → pending u.stream ≡ push (encode_all es) (pending w.stream)
    → Flushed u v
    → Ended es body w v
Flushed-Ended es body w u v (h, b) head pend f =
    let input = encode_all es in
    let last = final_header es body w in
    let pended : pending u.stream
        ≡ (log_header_bytes h ++ (body ++ input), log_header_size + length (body ++ input)) =
      pend ∙ ap (push input) b ∙ pushed_body h body input in
    let same : updated u ≡ last = λ i. record (head i) { data_end = (pended i).1 } in
    let whole : v.stream.file.contents ≡ log_header_bytes last ++ (body ++ input) =
      f.contents
      ∙ (λ i. overwrite (pended i).0 0 (log_header_bytes (same i)))
      ∙ overwrite_start (log_header_bytes h) (body ++ input) (log_header_bytes last)
          (length-log_header_bytes last ∙ sym (length-log_header_bytes h)) in
    let total : log_header_size + length (body ++ input)
        ≡ length (log_header_bytes last ++ (body ++ input)) =
      omega (
        arith,
        length-append (log_header_bytes last) (body ++ input),
        length-log_header_bytes last,
      ) in
    record {
      header = f.header ∙ same;
      contents = whole;
      plain = f.plain;
      body_kept = (
        last,
        f.pends
            ∙ (λ i. (whole i, (pended i).1))
            ∙ ap (λ n. (log_header_bytes last ++ (body ++ input), n)) total,
      );
    }

-- A client adds any storable entries, in order, to an open writer of a log without compression whose
-- file is a header with `body` behind it, and flushes it. Then the file is the header with the entries
-- counted and the right end of the data, `body` and the bytes of the entries, and nothing else; and
-- the writer is open and ready for more. Or an error stopped it, and its code is returned.
pub write_log-Ended :
    (codecs : Codecs) (es : List Entry) (body : List ℕ) (w : LogWriter)
    → All IsStorable es
    → IsPlain w
    → HasBody body w
    → ((v : LogWriter) × (write_log codecs es w ≡ (done tt, v)) × Ended es body w v)
      ⊎ ((code : ReturnCode) × (v : LogWriter) × (write_log codecs es w ≡ (thrown code, v)))
unfolding write_log ◌>>=◌
write_log-Ended codecs es body w h p b = elim (add_entries-Appends codecs es w h p) [
  | inr (code, v, e) ↦ inr (code, v, rw e)
  | inl (u, e, head, plain, pend) ↦ elim (flush-Flushed codecs u plain) [
    | inr (code, v, e') ↦ inr (code, v, rw (e, e'))
    | inl (v, e', f) ↦ inl (v, rw (e, e'), Flushed-Ended es body w u v b head pend f)
  ]
]
