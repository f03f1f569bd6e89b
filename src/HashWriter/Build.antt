-- ===== src/HashWriter/Build.antt =====
-- One round of the loop of `sparkey_hash_write` (src/hashwriter.c) over a log without compression.
pub mod Loop
use sparkey.Base.{
  ℕ, suc, ◌+◌, ◌*◌, ◌-◌, ◌^◌, ◌≤◌, ◌<◌, ◌==◌, ==_refl, true, List, [], ◌∷◌, ◌++◌, length, drop, All,
  length-drop, u64, add64, bit_or, none, ◌≡◌, refl, sym, ap, ◌∙◌, inr, arith,
}
use sparkey.Base.Bits.{bit_or_shift}
use mathlib.Core.Path.{subst}
use sparkey.Vlq.{unsigned_vlq_size}
use sparkey.Exec.{Outcome, done, ◌>>=◌}
use sparkey.Compress.{Codecs}
use sparkey.Entry.{Entry, put, delete, encode, encode_all, IsStorable}
use sparkey.LogReader.{LogReader}
use sparkey.LogIter.{LogIter}
use sparkey.LogIter.Plain.{IsPlainLog, IsFor, key_of}
use sparkey.LogIter.Next.{IsInside, ended, inside_data}
use sparkey.LogIter.Seek.{IsLoaded, within_entry}
use sparkey.LogIter.Scan.{IsBefore, next_before, next_end, encode_fits, bytes_behind}
use sparkey.LogIter.Chunks.Key.{at_start, behind_key, keychunk-key}
use sparkey.HashAlgorithm.{hash}
use sparkey.HashHeader.{HashHeader}
use sparkey.HashTable.{iter_hash, or_zero}
use sparkey.HashTable.Index.{IsUnblocked, IsPutAt}
use sparkey.HashTable.Order.{Slots, IsOrdered}
use sparkey.HashTable.Ring.{modulo-wanted}
use sparkey.HashTable.Represents.{Represents, SlotFits}
use sparkey.HashTable.Used.{used}
use sparkey.HashTable.Slot.{HashFits, AddressFits}
use sparkey.HashWriter.{HashState}
use sparkey.HashTable.Recount.{
  counted, recount-Represents, unrecount-Represents, recount-Implements, unrecount-Implements,
}
use sparkey.HashTable.Implements.{KeyMap, assign, Implements}
use sparkey.HashWriter.SameKey.{with_iters}
use sparkey.HashWriter.Entries.{put_or_delete, add_current, by_state, entries_loop}
use sparkey.HashWriter.Indexed.{Indexes, hash_put-Indexes, hash_delete-Indexes}
use sparkey.HashWriter.KeyMap.{address_of, indexed, grows, count_puts, IsContent}

module _ (codecs : Codecs) (log : LogReader) (l : IsPlainLog log) (header : HashHeader) where
  -- `sparkey_iter_hash` reads the key.
  iter_hash-key :
      (e : Entry) (p : ℕ) (rest : List ℕ) (storable : IsStorable e)
      (here : drop p log.bytes ≡ encode e ++ rest) (i : LogIter) (h : ℕ)
      → IsFor log i
      → length (key_of e) ≤ 2 ^ 30
      → hash header.hash_algorithm (key_of e) header.hash_seed ≡ done h
      → iter_hash codecs log header (at_start codecs log l e p rest storable here i)
        ≡ (done h, behind_key codecs log l e p rest storable here i)
  unfolding iter_hash or_zero
  iter_hash-key e p rest storable here i h f short hashed =
      let all : (length (key_of e) == length (key_of e)) ≡ true = ==_refl (length (key_of e)) in
      rw
        (
          keychunk-key codecs log l e p rest storable here (2 ^ 64 - 2 ^ 31) i f
              (omega (arith, short)),
          all,
          hashed,
        )
        refl

  address :
      (u : IsUnblocked header) (p : ℕ)
      → p < 2 ^ 64
      → bit_or (u64 (p * 2 ^ header.entry_block_bits)) 0 ≡ p
  address u p small =
      let whole : u64 (p * 2 ^ header.entry_block_bits) ≡ p =
        ap (λ b. u64 (p * 2 ^ b)) u.bits ∙ omega (arith, small) in
      rw whole (bit_or_shift 64 p 0 small ∙ omega arith)

  module _ (t : List ℕ) (f : Slots) (content : ℕ → List ℕ × List ℕ) (m : KeyMap)
      (r : Represents header t f) (o : IsOrdered header.hash_capacity f)
      (v : Implements log header f content m)
      (room : used header.hash_capacity f < header.hash_capacity)
      (counts : header.num_entries ≡ used header.hash_capacity f) where
    -- The current entry is put or deleted.
    pub add_current-Indexes :
        (e : Entry) (p : ℕ) (rest : List ℕ) (storable : IsStorable e)
        (here : drop p log.bytes ≡ encode e ++ rest) (i j : LogIter) (h : ℕ)
        → log.header.header_size ≤ p
        → 0 < p
        → length (key_of e) ≤ 2 ^ 30
        → hash header.hash_algorithm (key_of e) header.hash_seed ≡ done h
        → SlotFits header (h, p)
        → IsContent content (e ∷ []) p
        → IsFor log i
        → IsLoaded log j
        → Indexes log header e p
            (header.num_entries + grows e)
            content
            (assign (key_of e) (address_of e p) m)
            (add_current codecs log
              (with_iters header t (at_start codecs log l e p rest storable here i) j))
    unfolding add_current put_or_delete ◌>>=◌
    add_current-Indexes (put key value) p rest storable here i j h behind_header pos short hashed
          fit own f' loaded =
        let e = put key value in
        let small : p < 2 ^ 64 =
          omega (arith, inside_data codecs log l e p rest storable here, l.end_u64) in
        rw
          (
            iter_hash-key e p rest storable here i h f' short hashed,
            modulo-wanted header.hash_capacity h r.some,
            address v.index.unblocked p small,
          )
          (hash_put-Indexes codecs log l header t f content m r o v room counts e p rest storable
            here pos short h hashed value (behind_key codecs log l e p rest storable here i) j own.0
            (
              subst (λ (x : List ℕ × List ℕ). IsPutAt log p x) (sym own.0) (rest, storable, here),
              ap (λ (x : List ℕ × List ℕ). hash header.hash_algorithm x.0 header.hash_seed) own.0
                  ∙ hashed,
              behind_header,
            )
            fit (i, _, _, _, f', refl, omega arith) loaded)
    add_current-Indexes (delete key) p rest storable here i j h behind_header pos short hashed fit
          own f' loaded =
        let e = delete key in
        let garbage =
          add64 header.garbage_size (u64 (1 + unsigned_vlq_size (length key) + length key)) in
        let counted_garbage = counted header header.num_entries garbage in
        let (n, g', u, g, i', j', ran, shown, o', v', counts', few, inside, loaded') =
          hash_delete-Indexes codecs log l counted_garbage t f content m
            (recount-Represents header header.num_entries garbage f t r) o
            (recount-Implements header header.num_entries garbage f log content m v) room counts e p
            rest storable here pos short h hashed (behind_key codecs log l e p rest storable here i)
            j (i, _, _, _, f', refl, omega arith) loaded in
        (
          n,
          g',
          u,
          g,
          i',
          j',
          rw
              (
                iter_hash-key e p rest storable here i h f' short hashed,
                modulo-wanted header.hash_capacity h r.some,
              )
              ran,
          unrecount-Represents header header.num_entries garbage g u shown,
          o',
          unrecount-Implements header header.num_entries garbage g log content
              (assign (key_of e) none m) v',
          counts',
          omega (arith, few),
          inside,
          loaded',
        )
