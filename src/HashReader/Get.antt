-- ===== src/HashReader/Get.antt =====
-- `sparkey_hash_get` of src/hashreader.c on a table in order that indexes a log without compression.
use sparkey.Base.{
  ℕ, zero, suc, ◌+◌, ◌*◌, ◌%◌, ◌^◌, ◌≤◌, ◌<◌, ◌==◌, ==→eq, ==_refl, ltb, ltb→lt, ltb→le, List,
  length, Bool-cases, true, false, u64, ◌≡◌, refl, sym, ap, ◌∙◌, ◌⊎◌, inl, inr, arith,
}
use mathlib.Core.Bool.{false≢true}
use mathlib.Core.Path.{subst}
use native.Mathlib.Nat.{mod-lt}
use sparkey.Exec.{Outcome, done, done_injective, ◌>>=◌}
use sparkey.Compress.{Codecs}
use sparkey.Entry.{put}
use sparkey.LogReader.{LogReader}
use sparkey.LogIter.{LogIter, iter_invalid}
use sparkey.LogIter.Plain.{IsPlainLog, IsFor, prefix_len}
use sparkey.LogIter.Seek.{IsLoaded, within_entry}
use sparkey.HashAlgorithm.{hash}
use sparkey.HashTable.{slot_size}
use sparkey.HashTable.Ring.{
  behind, behind-lt, displacement, displacement-lt, modulo-wanted, get_displacement-displacement,
}
use sparkey.HashTable.Order.{Slots, IsOrdered}
use sparkey.HashTable.Represents.{Represents, capacity_small, slot_inside}
use sparkey.HashTable.Search.{IsAhead, starts-IsAhead, ends_search, step_on}
use sparkey.HashTable.Hashes.{hash-HashFits}
use sparkey.HashTable.Index.{IsIndex, HoldsKey}
use sparkey.HashReader.{
  HashReader, magic_value_hashreader, assert_reader_open, has_key_if, invalidate, get_loop,
  hash_get,
}
use sparkey.HashReader.Find.{next_pos_of}
use sparkey.HashReader.HasKey.{equal, unequal, behind_own, has_key-Compared}

-- The iterator is in the put of `key` and `value` at `p`, behind its key.
abbrev pub IsAtValue : LogReader → (key value : List ℕ) → (p : ℕ) → LogIter → Type 0
IsAtValue log key value p j =
    (i : LogIter) × IsFor log i
    × (j
        ≡ within_entry log (put key value) p i (prefix_len (put key value) + length key) 0
            (length value))

module _ (reader : HashReader) (f : Slots) (content : ℕ → List ℕ × List ℕ) where
  -- The slot holds a put of the key.
  abbrev pub HasKey : List ℕ → ℕ → Type 0
  HasKey = HoldsKey reader.header.hash_capacity f content

  -- How a lookup ends: the iterator is behind the key of the put in a slot, or no slot has the key and
  -- the iterator is invalid.
  pub data Finds (key : List ℕ) (result : Outcome (Unit {0}) × LogIter) : Type 0 where
    found :
        (s : ℕ)
        → HasKey key s
        → (j : LogIter) → IsAtValue reader.log key (content (f s).1).1 (f s).1 j
        → result ≡ (done tt, j)
        → Finds key result
    missing :
        ((s : ℕ) → HasKey key s → ⊥)
        → (j : LogIter) → j.state ≡ iter_invalid
        → result ≡ (done tt, j)
        → Finds key result

assert_opened :
    (codecs : Codecs) (reader : HashReader) (i : LogIter)
    → reader.open_status ≡ magic_value_hashreader
    → assert_reader_open reader i ≡ (done tt, i)
unfolding assert_reader_open
assert_opened codecs reader i e =
    let is : (reader.open_status == magic_value_hashreader) ≡ true = ground (arith, e) in rw is refl

module _ (codecs : Codecs) (reader : HashReader) (f : Slots) (content : ℕ → List ℕ × List ℕ)
    (l : IsPlainLog reader.log) (r : Represents reader.header reader.hashtable f)
    (ordered : IsOrdered reader.header.hash_capacity f)
    (ix : IsIndex reader.log reader.header f content) (key : List ℕ) (h : ℕ)
    (hashed : hash reader.header.hash_algorithm key reader.header.hash_seed ≡ done h) where
  abbrev c : ℕ
  c = reader.header.hash_capacity

  own_hash : (s : ℕ) → HasKey reader f content key s → (f s).0 ≡ h
  own_hash s k = done_injective (
      sym (ix.hashed s k.0 k.1)
      ∙ ap (λ x. hash reader.header.hash_algorithm x reader.header.hash_seed) k.2
      ∙ hashed)

  -- The slots that have the key are `q` or behind it.
  abbrev Ahead : (q k : ℕ) → Type 0
  Ahead = IsAhead c f ordered (HasKey reader f content key) (λ s. ⊥) (λ s has. (has.0, has.1))

  abbrev none_has_key :
      (q k : ℕ)
      → q < c
      → Ahead q k
      → ((f q).1 ≡ 0) ⊎ (displacement c q (f q).0 < k)
      → (s : ℕ) → HasKey reader f content key s
      → ⊥
  none_has_key =
      ends_search c f ordered (HasKey reader f content key) (λ s. ⊥) (λ s has. (has.0, has.1))

  module _ (fuel q k : ℕ) (i : LogIter) (hq : q < c) (ahead : Ahead q k)
      (taken : ((f q).1 == 0) ≡ false) where
    abbrev loop : Outcome (Unit {0}) × LogIter
    loop = get_loop codecs reader key (suc fuel) (q * slot_size reader.header) q k h i

    -- The key is not in this slot: the search ends, or goes on behind it.
    not_in_slot :
        (HasKey reader f content key q → ⊥)
        → (j : LogIter) → has_key_if codecs reader (h == (f q).0) key (f q).1 i ≡ (done false, j)
        → (k ≤ displacement c q (f q).0
            → Finds reader f content key (
                get_loop codecs reader key fuel
                  (behind c q * slot_size reader.header)
                  (behind c q)
                  (k + 1)
                  h
                  j))
        → Finds reader f content key loop
    unfolding get_loop behind ◌>>=◌
    not_in_slot not_here j e go_on =
        let read = r.reads q hq in
        let other =
          get_displacement-displacement c q (f q).0 hq
            (capacity_small reader.header reader.hashtable f r) in
        elim (Bool-cases (ltb (displacement c q (f q).0) k)) [
          | inl far ↦
              missing (none_has_key q k hq ahead (inr (ltb→lt _ _ far))) (invalidate j) refl
                (rw (read, taken, e, other, far) refl)
          | inr near ↦
              rw (read, taken, e, other, near, next_pos_of codecs reader f r ordered q)
                (go_on (ltb→le _ _ near))
        ]

    in_slot :
        HasKey reader f content key q
        → (j : LogIter) → IsAtValue reader.log key (content (f q).1).1 (f q).1 j
        → has_key_if codecs reader (h == (f q).0) key (f q).1 i ≡ (done true, j)
        → Finds reader f content key loop
    unfolding get_loop ◌>>=◌
    in_slot has j at e = found q has j at (rw (r.reads q hq, taken, e) refl)

  -- The loop of `sparkey_hash_get`. A displacement is below the number of slots, so it takes no more
  -- rounds than that, even where no slot is empty.
  get_loop-Finds :
      (fuel q k : ℕ) (i : LogIter)
      → IsLoaded reader.log i
      → q < c
      → k ≤ c
      → c < k + fuel
      → Ahead q k
      → Finds reader f content key
          (get_loop codecs reader key fuel (q * slot_size reader.header) q k h i)
  unfolding get_loop has_key_if ◌>>=◌
  get_loop-Finds zero q k i v hq hk enough ahead = absurd (omega arith)
  get_loop-Finds (suc fuel) q k i v hq hk enough ahead =
      let go_on =
        λ (not_here : HasKey reader f content key q → ⊥) (j : LogIter) (w : IsLoaded reader.log j)
            (near : k ≤ displacement c q (f q).0).
          get_loop-Finds fuel (behind c q) (k + 1) j w (behind-lt c q (omega arith))
            (omega (arith, near, displacement-lt c q (f q).0 hq)) (omega arith)
            (step_on c f ordered (HasKey reader f content key) (λ s. ⊥) (λ s has. (has.0, has.1)) q
              k hq ahead not_here) in
      elim (Bool-cases ((f q).1 == 0)) [
        | inl free ↦
            missing (none_has_key q k hq ahead (inl (==→eq (f q).1 0 free))) (invalidate i) refl
              (rw (r.reads q hq, free) refl)
        | inr taken ↦ elim (Bool-cases (h == (f q).0)) [
          | inr apart ↦
              let not_here = λ (has : HasKey reader f content key q).
                false≢true (sym apart ∙ ap (λ n. h == n) (own_hash q has) ∙ ==_refl h) in
              not_in_slot fuel q k i hq ahead taken not_here i (rw apart refl) (go_on not_here i v)
          | inl same ↦
              let used : 0 < (f q).1 = ground (arith, taken) in
              let (rest, storable, here) = ix.stored q hq used in
              let own = (content (f q).1).0 in
              let (j, for, compared) =
                has_key-Compared codecs reader l ix.unblocked own (content (f q).1).1 (f q).1 rest
                  storable here used key i v in
              elim compared [
                | equal e run ↦
                    let value = (content (f q).1).1 in
                    let at_own =
                      behind_own codecs reader l ix.unblocked own value (f q).1 rest storable here
                        used j in
                    in_slot fuel q k i hq ahead taken (hq, used, sym e) at_own
                      (subst (λ x. IsAtValue reader.log x value (f q).1 at_own) (sym e)
                        (j, for, refl))
                      (rw same run)
                | unequal other j' w run ↦
                    let not_here = λ (has : HasKey reader f content key q). other (sym has.2) in
                    not_in_slot fuel q k i hq ahead taken not_here j' (rw same run)
                      (go_on not_here j' w)
              ]
        ]
      ]

  hash_get-hashed :
      reader.open_status ≡ magic_value_hashreader
      → (i : LogIter) → IsLoaded reader.log i
      → Finds reader f content key (hash_get codecs reader key i)
  unfolding hash_get displacement ◌>>=◌
  hash_get-hashed opened i v =
      let w = h % c in
      let wanted : w < c = mod-lt h r.some in
      let start : u64 (w * slot_size reader.header) ≡ w * slot_size reader.header =
        omega (arith, slot_inside reader.header reader.hashtable f r w wanted, r.len, r.small) in
      rw (assert_opened codecs reader i opened, hashed, modulo-wanted c h r.some, start)
        (get_loop-Finds (c + 1) w 0 i v wanted (omega arith) (omega arith) (
          starts-IsAhead c f ordered (HasKey reader f content key) (λ s. ⊥)
            (λ s has. (has.0, has.1)) h own_hash))

module _ (codecs : Codecs) (reader : HashReader) (f : Slots) (content : ℕ → List ℕ × List ℕ)
    (l : IsPlainLog reader.log) (r : Represents reader.header reader.hashtable f)
    (ordered : IsOrdered reader.header.hash_capacity f)
    (ix : IsIndex reader.log reader.header f content) where
  -- `sparkey_hash_get` returns success at every key of less than 2 ^ 31 bytes, even where the table has
  -- no empty slot. If a slot of the table holds a put of the key, the iterator is in that put, behind its
  -- key; if none does, the iterator is invalid. The reader is open, its log has no compression, its table is in order and
  -- indexes puts of the log, and the iterator belongs to the log, with a block of it loaded or none.
  pub hash_get-Finds :
      (key : List ℕ) (i : LogIter)
      → length key < 2 ^ 31
      → reader.open_status ≡ magic_value_hashreader
      → IsLoaded reader.log i
      → Finds reader f content key (hash_get codecs reader key i)
  hash_get-Finds key i short status loaded =
      let (h, hashed, fits) =
        hash-HashFits reader.header.hash_algorithm key reader.header.hash_seed short in
      hash_get-hashed codecs reader f content l r ordered ix key h hashed status i loaded
