-- ===== src/Command/Rewrite.antt =====
-- `sparkey rewrite` of src/main.c: the loop that copies the entries of a log to a new one.
use sparkey.Base.{
  ℕ, zero, suc, ◌+◌, ◌≤◌, List, [], ◌∷◌, length, drop, All, if◌then◌else◌, length-drop, ◌≡◌, refl,
  ap, inr, arith,
}
use sparkey.Exec.{
  Outcome, done, thrown, fault, out_of_fuel, and_then, Exec, pure, lift, gets, within, continue,
  ◌>>=◌, ◌>>◌,
}
use sparkey.Endian.{peek, poke}
use sparkey.Endian.Memory.{poked, poke_fits, peek-poked, length-poked}
use sparkey.Compress.{Codecs}
use sparkey.Entry.{Entry, put, encode, encode_all, IsStorable}
use sparkey.LogReader.{LogReader}
use sparkey.LogIter.{LogIter, is_active, logiter_next}
use sparkey.LogIter.Chunks.{fill_key, fill_value}
use sparkey.LogIter.Plain.{IsPlainLog, IsFor, key_of, value_of}
use sparkey.LogIter.Next.{settled}
use sparkey.LogIter.Scan.{
  IsBefore, next_before, next_end, encode_fits, bytes_behind, taken, taken-IsInside,
  fill_key-at_entry, fill_value-at_entry,
}
use sparkey.LogWriter.{LogWriter, logwriter_put}
use sparkey.LogWriter.Session.{add_entries}
use sparkey.LogWriter.Plain.{add_entry}
use sparkey.Command.{on_iter}

-- A call that fills a buffer, and what the buffer starts with afterwards.
filled : (buf res : List ℕ) → (wanted : ℕ) → Outcome (List ℕ × List ℕ)
filled buf res wanted = and_then (poke buf 0 res) λ b. and_then (peek b 0 wanted) λ d. done (b, d)

module _ (codecs : Codecs) (log : LogReader) where
  on_writer : {A : Type 0} → Exec LogWriter A → Exec (LogIter × LogWriter) A
  on_writer = within (λ s. s.1) (λ s w. (s.0, w))

  -- The `while (1)` loop, with the buffers for the key and the value.
  pub rewrite_loop :
      (rounds : ℕ) → (keybuf valuebuf : List ℕ) → Exec (LogIter × LogWriter) (Unit {0})
  unfolding filled on_writer
  rewrite_loop zero keybuf valuebuf s = (fault out_of_fuel, s)
  rewrite_loop (suc rounds) keybuf valuebuf s =
      (do
        on_iter (logiter_next codecs log)
        i ← gets (λ s. s.0)
        if is_active i.state
            then (do
              key ← on_iter (fill_key codecs log i.keylen)
              (keybuf2, keydata) ← lift (filled keybuf key i.keylen)
              j ← gets (λ s. s.0)
              value ← on_iter (fill_value codecs log j.valuelen)
              (valuebuf2, valuedata) ← lift (filled valuebuf value j.valuelen)
              on_writer (logwriter_put codecs keydata valuedata)
              rewrite_loop rounds keybuf2 valuebuf2)
            else pure tt)
        s

filled_whole :
    (buf res : List ℕ) (fits : length res ≤ length buf)
    → filled buf res (length res) ≡ done (poked buf 0 res, res)
unfolding filled
filled_whole buf res fits =
    let inside : 0 + length res ≤ length buf = omega (arith, fits) in
    rw (poke_fits buf 0 res inside, peek-poked buf 0 res inside) refl

-- The entries that a rewritten log has: a put for each entry, and so for a delete.
abbrev pub as_put : Entry → Entry
as_put e = put (key_of e) (value_of e)

abbrev pub as_puts : List Entry → List Entry
as_puts [] = []
as_puts (e ∷ es) = as_put e ∷ as_puts es

-- The loop ends as the writer alone would, with the same outcome and the same state of the writer.
abbrev pub Agrees :
    Outcome (Unit {0}) × (LogIter × LogWriter) → Outcome (Unit {0}) × LogWriter → Type 0
Agrees a b = (a.0 ≡ b.0) × (a.1.1 ≡ b.1)

continue-Agrees :
    (r : Outcome (Unit {0})) (i : LogIter) (w : LogWriter)
    (rest : Exec (LogIter × LogWriter) (Unit {0})) (alone : Exec LogWriter (Unit {0}))
    → ((v : LogWriter) → Agrees (rest (i, v)) (alone v))
    → Agrees (continue r (λ _. rest) (i, w)) (continue r (λ _. alone) w)
continue-Agrees (done u) i w rest alone h = h w
continue-Agrees (thrown c) i w rest alone h = (refl, refl)
continue-Agrees (fault x) i w rest alone h = (refl, refl)

-- The entry fits the buffers.
abbrev pub FitsBuffers : (keylen valuelen : ℕ) → Entry → Type 0
FitsBuffers keylen valuelen e = (length (key_of e) ≤ keylen) × (length (value_of e) ≤ valuelen)

module _ (codecs : Codecs) (log : LogReader) (l : IsPlainLog log) where
  -- The loop of `sparkey rewrite` writes exactly what a client writes that adds a put for each entry of
  -- the log: of the key and the value of a put, and of the key and an empty value of a delete. It ends
  -- with the same outcome, errors of the writer included, and leaves the writer in the same state. The
  -- log has no compression, its entries are storable and their bytes are the rest of the data, and the
  -- buffers take the longest key and value.
  pub rewrite_loop-add_entries :
      (es : List Entry) (p : ℕ) (keybuf valuebuf : List ℕ) (i : LogIter) (w : LogWriter)
      → All IsStorable es
      → All (FitsBuffers (length keybuf) (length valuebuf)) es
      → IsFor log i
      → IsBefore log i p
      → p ≤ log.header.data_end
      → drop p log.bytes ≡ encode_all es
      → Agrees
          (rewrite_loop codecs log (length es + 1) keybuf valuebuf (i, w))
          (add_entries codecs (as_puts es) w)
  unfolding rewrite_loop on_writer taken is_active add_entries add_entry ◌>>=◌
  rewrite_loop-add_entries [] p keybuf valuebuf i w ok fits f b in_data here =
      let last : p ≡ log.header.data_end =
        omega (arith, ap length here, length-drop p log.bytes, l.sized) in
      rw (next_end codecs log l i p f b last) (refl, refl)
  rewrite_loop-add_entries (e ∷ es) p keybuf valuebuf i w ok fits f b in_data here =
      let rest = encode_all es in
      let fuel : suc (length es) + 1 ≡ suc (length es + 1) = omega arith in
      let at : IsFor log (settled log i) = record {
        is_open = f.is_open;
        same_file = f.same_file;
      } in
      let keybuf2 = poked keybuf 0 (key_of e) in
      let valuebuf2 = poked valuebuf 0 (value_of e) in
      let j = taken codecs log l e p rest ok.0 here (settled log i) in
      let still_fits : All (FitsBuffers (length keybuf2) (length valuebuf2)) es =
        rw
          (
            length-poked keybuf 0 (key_of e) (omega (arith, fits.0.0)),
            length-poked valuebuf 0 (value_of e) (omega (arith, fits.0.1)),
          )
          fits.1 in
      let next_round = λ (v : LogWriter).
        rewrite_loop-add_entries es (p + length (encode e)) keybuf2 valuebuf2 j v ok.1 still_fits
          (record { is_open = f.is_open; same_file = f.same_file })
          (inr (taken-IsInside codecs log l e p rest ok.0 here i))
          (encode_fits codecs log l e p rest ok.0 here).1
          (bytes_behind codecs log l e p rest ok.0 here) in
      rw
        (
          fuel,
          next_before codecs log l e p rest ok.0 here i f b,
          fill_key-at_entry codecs log l e p rest ok.0 here (settled log i) at,
          filled_whole keybuf (key_of e) fits.0.0,
          fill_value-at_entry codecs log l e p rest ok.0 here (settled log i) at,
          filled_whole valuebuf (value_of e) fits.0.1,
        )
        (continue-Agrees (logwriter_put codecs (key_of e) (value_of e) w).0 j
          (logwriter_put codecs (key_of e) (value_of e) w).1
          (rewrite_loop codecs log (length es + 1) keybuf2 valuebuf2)
          (add_entries codecs (as_puts es)) next_round)
