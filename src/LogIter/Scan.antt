-- ===== src/LogIter/Scan.antt =====
-- A client that reads every entry of a log, as the example in the documentation of src/sparkey.h does:
-- `sparkey_logiter_next` until the iterator is not active, then the key and the value.
use sparkey.Base.{
  ℕ, zero, suc, ◌+◌, ◌≤◌, List, [], ◌∷◌, ◌++◌, length, take, drop, if◌then◌else◌, drop-drop,
  drop-length-append, take-length-append, length-drop, length-append, append_assoc, append-nil, All,
  ◌≡◌, refl, sym, ap, ◌∙◌, ◌⊎◌, inl, inr, arith,
}
use sparkey.Exec.{done, fault, out_of_fuel, Exec, pure, gets, ◌>>=◌, ◌>>◌}
use sparkey.Vlq.Format.{vlq}
use sparkey.Compress.{Codecs}
use sparkey.Entry.{Entry, put, delete, encode, encode_all, IsStorable}
use sparkey.LogReader.{LogReader}
use sparkey.LogIter.{
  LogIter, EntryType, entry_put, entry_delete, iter_closed, is_active, logiter_next,
}
use sparkey.LogIter.Chunks.{fill_key, fill_value}
use sparkey.LogIter.Chunks.Read.{IsReadable, bytes_at, fill_key-plain, fill_value-plain}
use sparkey.LogIter.Plain.{
  IsPlainLog, IsFor, at_entry, first, second, payload, prefix_len, key_of, value_of, type_of,
  length-encode, numbers,
}
use sparkey.LogIter.Next.{
  IsFresh, IsInside, settled, ended, inside_data, next_inside, next_fresh, next_inside_end,
  next_fresh_end,
}

abbrev entry_of : EntryType → (key value : List ℕ) → Entry
entry_of entry_put key value = put key value
entry_of entry_delete key value = delete key

entry_of_parts : (e : Entry) → entry_of (type_of e) (key_of e) (value_of e) ≡ e
entry_of_parts (put key value) = refl
entry_of_parts (delete key) = refl

module _ (codecs : Codecs) (log : LogReader) where
  -- The entry that the iterator is at.
  unfoldable pub take_entry : Exec LogIter Entry
  take_entry = do
    i ← gets (λ i. i)
    key ← fill_key codecs log i.keylen
    value ← fill_value codecs log i.valuelen
    pure (entry_of i.type key value)

  pub read_entries : ℕ → Exec LogIter (List Entry)
  read_entries zero i = (fault out_of_fuel, i)
  read_entries (suc fuel) i =
      (do
        logiter_next codecs log
        j ← gets (λ j. j)
        if is_active j.state
            then (do e ← take_entry; es ← read_entries fuel; pure (e ∷ es))
            else pure [])
        i

-- The next entry starts at `p`.
abbrev pub IsBefore : LogReader → LogIter → ℕ → Type 0
IsBefore log i p = IsFresh i p ⊎ IsInside log i p

payload-parts : (e : Entry) → payload e ≡ key_of e ++ value_of e
payload-parts (put key value) = refl
payload-parts (delete key) = sym (append-nil key)

module _ (codecs : Codecs) (log : LogReader) (l : IsPlainLog log) where
  module _ (e : Entry) (p : ℕ) (rest : List ℕ) (h : IsStorable e)
      (here : drop p log.bytes ≡ encode e ++ rest) where
    pub at_key : drop (prefix_len e) (drop p log.bytes) ≡ key_of e ++ (value_of e ++ rest)
    at_key =
        let n = length (vlq (first e)) in
        let m = length (vlq (second e)) in
        sym (drop-drop n m (drop p log.bytes))
        ∙ ap (λ x. drop m (drop n x)) (numbers codecs log e p rest h here)
        ∙ ap (drop m) (drop-length-append (vlq (first e)) _ n refl)
        ∙ drop-length-append (vlq (second e)) _ m refl
        ∙ ap (λ x. x ++ rest) (payload-parts e)
        ∙ append_assoc (key_of e) (value_of e) rest

    pub at_value : drop (prefix_len e + length (key_of e)) (drop p log.bytes) ≡ value_of e ++ rest
    at_value =
        sym (drop-drop (prefix_len e) (length (key_of e)) (drop p log.bytes))
        ∙ ap (drop (length (key_of e))) at_key
        ∙ drop-length-append (key_of e) _ (length (key_of e)) refl

    pub bytes_behind : drop (p + length (encode e)) log.bytes ≡ rest
    bytes_behind =
        sym (drop-drop p (length (encode e)) log.bytes)
        ∙ ap (drop (length (encode e))) here
        ∙ drop-length-append (encode e) rest (length (encode e)) refl

    unfoldable pub taken : LogIter → LogIter
    taken i = record (at_entry log e p i) {
      block_offset = prefix_len e + length (key_of e) + length (value_of e);
      key_remaining = 0;
      value_remaining = 0;
    }

    pub encode_fits :
        prefix_len e + length (key_of e) + length (value_of e) ≡ length (encode e)
        × p + length (encode e) ≤ log.header.data_end
    encode_fits = (
      omega (
        arith,
        length-encode e,
        ap length (payload-parts e),
        length-append (key_of e) (value_of e),
      ),
      omega (
        arith,
        ap length here,
        length-drop p log.bytes,
        length-append (encode e) rest,
        inside_data codecs log l e p rest h here,
        l.sized,
      ),
    )

    pub readable : (i : LogIter) → IsReadable (at_entry log e p i)
    readable i = record {
      state = refl;
      fits = omega (arith, encode_fits.0, encode_fits.1);
      in_buf = omega (arith, length-drop p log.bytes, l.sized);
      small = omega (arith, l.end_u64);
    }

    -- The iterator with the key read, and with the value read too.
    abbrev pub key_taken : LogIter → LogIter
    key_taken i = record (at_entry log e p i) {
      block_offset = prefix_len e + length (key_of e);
      key_remaining = 0;
    }

    pub fill_key-at_entry :
        (i : LogIter)
        → IsFor log i
        → fill_key codecs log (length (key_of e)) (at_entry log e p i)
          ≡ (done (key_of e), key_taken i)
    fill_key-at_entry i f =
        let j = at_entry log e p i in
        let key : bytes_at j (length (key_of e)) ≡ key_of e =
          ap (take (length (key_of e))) at_key ∙ take-length-append (key_of e) _ _ refl in
        fill_key-plain codecs log l (length (key_of e)) j
          (record { is_open = f.is_open; same_file = f.same_file }) (readable i) refl
        ∙ ap (λ (k : List ℕ). (done k, key_taken i)) key

    pub fill_value-at_entry :
        (i : LogIter)
        → IsFor log i
        → fill_value codecs log (length (value_of e)) (key_taken i) ≡ (done (value_of e), taken i)
    unfolding taken
    fill_value-at_entry i f =
        let r = readable i in
        let value : bytes_at (key_taken i) (length (value_of e)) ≡ value_of e =
          ap (take (length (value_of e))) at_value ∙ take-length-append (value_of e) _ _ refl in
        fill_value-plain codecs log l (length (value_of e)) (key_taken i)
          (record { is_open = f.is_open; same_file = f.same_file })
          (record {
            state = refl;
            fits = omega (arith, r.fits);
            in_buf = r.in_buf;
            small = r.small;
          })
          refl refl
        ∙ ap (λ (k : List ℕ). (done k, taken i)) value

    take_entry-at_entry :
        (i : LogIter) → IsFor log i → take_entry codecs log (at_entry log e p i) ≡ (done e, taken i)
    unfolding take_entry ◌>>=◌
    take_entry-at_entry i f =
        rw (fill_key-at_entry i f, fill_value-at_entry i f, entry_of_parts e) refl

    pub taken-IsInside :
        (i : LogIter) → IsInside log (taken (settled log i)) (p + length (encode e))
    unfolding taken
    taken-IsInside i = record {
      state = refl;
      next = refl;
      len = omega (arith, inside_data codecs log l e p rest h here);
      entry_end = omega (arith, encode_fits.0);
      in_data = encode_fits.1;
    }

    pub next_before :
        (i : LogIter)
        → IsFor log i
        → IsBefore log i p
        → logiter_next codecs log i ≡ (done tt, at_entry log e p (settled log i))
    next_before i f b = elim b [
      | inl s ↦ next_fresh codecs log l e p rest h here i f s
      | inr s ↦ next_inside codecs log l e p rest h here i f s
    ]

  pub next_end :
      (i : LogIter) (p : ℕ)
      → IsFor log i
      → IsBefore log i p
      → p ≡ log.header.data_end
      → logiter_next codecs log i ≡ (done tt, ended codecs log l i)
  next_end i p f (inl s) e = next_fresh_end codecs log l i f (record {
    state = s.state;
    position = s.position;
    offset = s.offset;
    len = s.len;
    next = s.next ∙ e;
    behind_header = omega (arith, s.behind_header, e);
  })
  next_end i p f (inr s) e = next_inside_end codecs log l i f (record {
    state = s.state;
    next = s.next;
    len = s.len;
    entry_end = s.entry_end ∙ e;
    in_data = omega arith;
  })

  read_step :
      (e : Entry) (p : ℕ) (rest : List ℕ) (h : IsStorable e)
      (here : drop p log.bytes ≡ encode e ++ rest) (i j : LogIter) (es : List Entry) (fuel : ℕ)
      → IsFor log i
      → IsBefore log i p
      → read_entries codecs log fuel (taken e p rest h here (settled log i)) ≡ (done es, j)
      → read_entries codecs log (suc fuel) i ≡ (done (e ∷ es), j)
  unfolding read_entries is_active ◌>>=◌
  read_step e p rest h here i j es fuel f b r = rw (
    next_before e p rest h here i f b,
    take_entry-at_entry e p rest h here (settled log i)
        (record { is_open = f.is_open; same_file = f.same_file }),
    r,
  )

  -- A client that reads from an iterator whose next entry starts at `p` gets the entries whose bytes
  -- are there, in order and complete, and then the iterator is closed: with `length es + 1` calls of
  -- `sparkey_logiter_next`. The log has no compression, the entries are storable, and their bytes are
  -- the rest of the data.
  pub read_entries-encode_all :
      (es : List Entry) (p : ℕ) (i : LogIter)
      → All IsStorable es
      → IsFor log i
      → IsBefore log i p
      → p ≤ log.header.data_end
      → drop p log.bytes ≡ encode_all es
      → (j : LogIter) × (read_entries codecs log (length es + 1) i ≡ (done es, j))
        × (j.state ≡ iter_closed)
  unfolding read_entries is_active taken ◌>>=◌
  read_entries-encode_all [] p i h f b in_data here =
      let last : p ≡ log.header.data_end =
        omega (arith, ap length here, length-drop p log.bytes, l.sized) in
      (ended codecs log l i, rw (next_end i p f b last), refl)
  read_entries-encode_all (e ∷ es) p i h f b in_data here =
      let i' = taken e p (encode_all es) h.0 here (settled log i) in
      let (j, r, closed) =
        read_entries-encode_all es (p + length (encode e)) i' h.1
          (record { is_open = f.is_open; same_file = f.same_file })
          (inr (taken-IsInside e p (encode_all es) h.0 here i))
          (encode_fits e p (encode_all es) h.0 here).1
          (bytes_behind e p (encode_all es) h.0 here) in
      let fuel : suc (length es) + 1 ≡ suc (length es + 1) = omega arith in
      (
        j,
        ap (λ n. read_entries codecs log n i) fuel
            ∙ read_step e p (encode_all es) h.0 here i j es (length es + 1) f b r,
        closed,
      )
