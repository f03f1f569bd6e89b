-- ===== src/HashWriter/Indexed.antt =====
-- `hash_put` and `hash_delete` of the current entry of a log without compression, on a table that
-- indexes the log: what they make of the map from keys to addresses.
use sparkey.Base.{
  ℕ, true, false, ltb, leb, le→ltb, lt→leb, ◌+◌, ◌%◌, ◌^◌, ◌≤◌, ◌<◌, add64, sub64, List, ◌++◌,
  length, drop, none, some, ◌≡◌, refl, sym, ap, ◌∙◌, inl, inr, arith,
}
use mathlib.Core.Path.{subst}
use sparkey.Exec.{Outcome, done, done_injective}
use sparkey.Compress.{Codecs}
use sparkey.Entry.{Entry, put, encode, IsStorable}
use sparkey.LogReader.{LogReader}
use sparkey.LogIter.{LogIter}
use sparkey.LogIter.Plain.{IsPlainLog, key_of}
use sparkey.LogIter.Seek.{IsLoaded}
use sparkey.HashAlgorithm.{hash}
use sparkey.HashHeader.{HashHeader}
use sparkey.HashTable.Order.{Slots, IsOrdered, update}
use sparkey.HashTable.Represents.{Represents, SlotFits, capacity_small}
use sparkey.HashTable.Used.{used, used-update, mark_used}
use sparkey.HashTable.Index.{HoldsKey, block_of_position}
use sparkey.LogIter.Next.{inside_data}
use mathlib.Core.Bool.{false≢true}
use sparkey.HashTable.Recount.{counted}
use sparkey.HashTable.Implements.{KeyMap, assign, Implements}
use sparkey.HashTable.Implements.Changes.{
  IsEntry, put-Implements, update-Implements, removed-Implements, absent-Implements,
}
use sparkey.HashWriter.{HashState, hash_put, hash_delete}
use sparkey.HashWriter.Asks.{IsFailed, Candidate, Found, Asks}
use sparkey.HashWriter.SameKey.{with_iters}
use sparkey.HashWriter.Compare.{IsIn, Says, same_key-Says}
use sparkey.HashWriter.PutAsked.{put_added, put_replaced, put_failed, hash_put-PutAnswers}
use sparkey.HashWriter.DeleteAsked.{
  is_outside, removed, left_alone, delete_failed, outside, hash_delete-DeleteAnswers,
}

-- The call returned, and left a table in order that gives the keys the addresses of the map `m`; as
-- many entries are counted as slots are used, `most` at most, and the iterator is in the entry that it was in.
abbrev pub Indexes :
    LogReader
    → HashHeader
    → Entry
    → (p most : ℕ) → (content : ℕ → List ℕ × List ℕ) → KeyMap
    → Outcome (Unit {0}) × HashState
    → Type 0
Indexes log header e p most content m result =
    (n : ℕ) × (garbage : ℕ) × (u : List ℕ) × (g : Slots) × (i : LogIter) × (j : LogIter) × (result
      ≡ (done tt, with_iters (counted header n garbage) u i j))
    × Represents header u g
    × IsOrdered header.hash_capacity g
    × Implements log header g content m
    × (n ≡ used header.hash_capacity g)
    × (n ≤ most)
    × IsIn log e p i
    × IsLoaded log j

module _ (codecs : Codecs) (log : LogReader) (l : IsPlainLog log) (header : HashHeader) (t : List ℕ)
    (f : Slots) (content : ℕ → List ℕ × List ℕ) (m : KeyMap) (r : Represents header t f)
    (o : IsOrdered header.hash_capacity f) (v : Implements log header f content m)
    (room : used header.hash_capacity f < header.hash_capacity)
    (counts : header.num_entries ≡ used header.hash_capacity f) (e : Entry) (p : ℕ) (rest : List ℕ)
    (storable : IsStorable e) (here : drop p log.bytes ≡ encode e ++ rest) (pos : 0 < p)
    (short : length (key_of e) ≤ 2 ^ 30) (h : ℕ)
    (hashed : hash header.hash_algorithm (key_of e) header.hash_seed ≡ done h) where
  abbrev P : LogIter → LogIter → Type 0
  P i j = IsIn log e p i × IsLoaded log j

  abbrev Q : ℕ → Found → Type 0
  Q slot a = Says (key_of e) (content (f slot).1).0 (content (f slot).1).1 a

  asks : Asks codecs log header t f h P Q
  asks = record {
    answers = λ slot less taken same i j k.
        let (rest2, storable2, there) = v.index.stored slot less taken in
        same_key-Says codecs log l header v.index.unblocked t e p rest storable here pos short
          (content (f slot).1).0 (content (f slot).1).1 (f slot).1 rest2 storable2 there taken i j
          k.0 k.1;
  }

  none_holds :
      ((s : ℕ) → Candidate header f h s → Q s (done none))
      → (s : ℕ) → HoldsKey header.hash_capacity f content (key_of e) s
      → ⊥
  none_holds asked s (less, taken, own) =
      let same : (f s).0 ≡ h = done_injective (
        sym (v.index.hashed s less taken)
        ∙ ap (λ k. hash header.hash_algorithm k header.hash_seed) own
        ∙ hashed) in
      elim (asked s (less, taken, same)) [
        | inl (eq, clash) ↦ absurd (cc clash)
        | inr (ne, is) ↦ ne (sym own)
      ]

  one_holds :
      (slot : ℕ) (lens : ℕ × ℕ)
      → slot < header.hash_capacity
      → 0 < (f slot).1
      → Q slot (done (some lens))
      → HoldsKey header.hash_capacity f content (key_of e) slot
  one_holds slot lens less taken (inl (eq, is)) = (less, taken, sym eq)
  one_holds slot lens less taken (inr (ne, clash)) = absurd (cc clash)

  never_fails : (slot : ℕ) (a : Found) → Q slot a → IsFailed a → ⊥
  never_fails slot a (inl (eq, is)) failed = subst IsFailed is failed
  never_fails slot a (inr (ne, is)) failed = subst IsFailed is failed

  -- `hash_put` of a put at the position `p` returns, and the map has `p` at its key and is as it was at
  -- all other keys; if the key had an address, its slot was taken, else the entry was added, so that
  -- as many entries are counted as slots are used. The table is in order and indexes puts of a log
  -- without compression, an unused slot is left, the key has 2 ^ 30 bytes at most, its hash and `p` fit
  -- a slot, and the iterator is in the put.
  pub hash_put-Indexes :
      (value : List ℕ) (i j : LogIter)
      → content p ≡ (key_of e, value)
      → IsEntry log header f content m v (key_of e) (h, p)
      → SlotFits header (h, p)
      → IsIn log e p i
      → IsLoaded log j
      → Indexes log header e p
          (header.num_entries + 1)
          content
          (assign (key_of e) (some p) m)
          (hash_put codecs log true (h % header.hash_capacity) h p (with_iters header t i j))
  hash_put-Indexes value i j own entry fit inside loaded =
      let key_own = ap (λ x. x.0) own in
      let small = capacity_small header t f r in
      elim (hash_put-PutAnswers codecs log header f t h p P Q r o fit asks i j (inside, loaded) pos
        room) [
          | put_added i' j' kept asked (u, g, e', shown, o', now) ↦ (
            add64 header.num_entries 1,
            header.garbage_size,
            u,
            g,
            i',
            j',
            e',
            shown,
            o',
            put-Implements log header f content m v (key_of e) (h, p) entry key_own pos g
                (none_holds asked) now,
            omega (arith, counts, now.counted, room, small),
            omega (arith, room, small, counts),
            kept.0,
            kept.1,
          )
          | put_replaced slot keylen2 valuelen2 i' j' kept q (u, e', less, taken, same, shown, o') ↦
              (
                header.num_entries,
                _,
                u,
                update f slot (h, p),
                i',
                j',
                e',
                shown,
                o',
                update-Implements log header f content m v (key_of e) (h, p) entry key_own pos slot
                    (one_holds slot _ less taken q),
                omega (
                  arith,
                  counts,
                  used-update header.hash_capacity f slot (h, p) less,
                  mark_used (h, p) pos,
                  mark_used (f slot) taken,
                ),
                omega arith,
                kept.0,
                kept.1,
              )
          | put_failed slot a i' j' there q failed_a e' ↦ absurd (never_fails slot a q failed_a)
        ]

  never_outside :
      (slot : ℕ)
      → slot < header.hash_capacity
      → 0 < (f slot).1
      → is_outside codecs log header (f slot).1 ≡ true
      → ⊥
  never_outside slot less taken out =
      let (rest2, storable2, there) = v.index.stored slot less taken in
      let block = block_of_position header v.index.unblocked (f slot).1 in
      let behind_header : ltb (f slot).1 log.header.header_size ≡ false =
        le→ltb _ _ (v.index.behind_header slot less taken) in
      let inside : leb log.header.data_end (f slot).1 ≡ false = lt→leb _ _ (
        inside_data codecs log l (put (content (f slot).1).0 (content (f slot).1).1) (f slot).1
          rest2 storable2 there) in
      false≢true (sym (rw (block, behind_header, inside) refl) ∙ out)

  -- `hash_delete` at the entry at the position `p` returns, and the map has no address at its key and is as
  -- it was at all other keys; as many entries are counted as slots are used. The table is in order and
  -- indexes puts of a log without compression, not every slot is used, the key has 2 ^ 30 bytes at most,
  -- and the iterator is in the entry.
  pub hash_delete-Indexes :
      (i j : LogIter)
      → IsIn log e p i
      → IsLoaded log j
      → Indexes log header e p header.num_entries content
          (assign (key_of e) none m)
          (hash_delete codecs log (h % header.hash_capacity) h (with_iters header t i j))
  hash_delete-Indexes i j inside loaded =
      let small = capacity_small header t f r in
      elim (hash_delete-DeleteAnswers codecs log header f t h P Q r o room asks i j
        (inside, loaded)) [
          | removed slot keylen2 valuelen2 i' j' kept q
                (u, g, e', less, taken, same, shown, o', gone) ↦
              (
                sub64 header.num_entries 1,
                _,
                u,
                g,
                i',
                j',
                e',
                shown,
                o',
                removed-Implements log header f content m v (key_of e) slot g
                    (one_holds slot _ less taken q) gone,
                omega (arith, counts, gone.counted, room, small),
                omega (arith, counts, gone.counted, room, small),
                kept.0,
                kept.1,
              )
          | left_alone i' j' kept asked e' ↦ (
            header.num_entries,
            header.garbage_size,
            t,
            f,
            i',
            j',
            e',
            r,
            o,
            absent-Implements log header f content m v (key_of e) (none_holds asked),
            counts,
            omega arith,
            kept.0,
            kept.1,
          )
          | delete_failed slot a i' j' there q failed_a e' ↦ absurd (never_fails slot a q failed_a)
          | outside slot i' j' less taken out e' ↦ absurd (never_outside slot less taken out)
        ]
