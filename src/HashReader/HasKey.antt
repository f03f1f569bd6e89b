-- ===== src/HashReader/HasKey.antt =====
-- Whether the put at an address has a key, as `sparkey_hash_get` of src/hashreader.c finds out.
use sparkey.Base.{
  ℕ, zero, suc, ◌+◌, ◌≤◌, ◌<◌, List, [], ◌∷◌, ◌++◌, length, drop, true, false, leb, ◌==◌, le→leb,
  ==_refl, ==→eq, take_all, Bool, Bool-cases, ◌≡◌, ◌≢◌, refl, sym, ap, ◌∙◌, inl, inr, arith,
}
use mathlib.Core.Bool.{false≢true}
use sparkey.Exec.{Outcome, done, ◌>>=◌}
use sparkey.Endian.{peek}
use sparkey.Endian.Memory.{peek_inside}
use sparkey.Compress.{Codecs}
use sparkey.Entry.{put, encode, IsStorable}
use sparkey.LogIter.{LogIter}
use sparkey.LogIter.Chunks.{Order, below, same, above, memcmp}
use sparkey.LogIter.Chunks.Compare.{IsSame, memcmp_self, memcmp-IsSame}
use sparkey.LogIter.Chunks.Key.{at_start, behind_key, keychunk-key}
use sparkey.LogIter.Plain.{IsPlainLog, IsFor, prefix_len}
use sparkey.LogIter.Next.{inside_data}
use sparkey.LogIter.Seek.{IsLoaded, logiter_seek-sought, next_sought, skip_none}
use sparkey.HashReader.{HashReader, is_same, is_put, compare_loop, has_key}
use sparkey.HashTable.Index.{IsUnblocked, block_of_position, no_entry_index}

length_none : (xs : List ℕ) → length xs ≡ 0 → xs ≡ []
length_none [] e = refl
length_none (x ∷ xs) e = absurd (omega (arith, e))

is_same-IsSame : (o : Order) → is_same o ≡ true → IsSame o
unfolding is_same
is_same-IsSame same e = tt
is_same-IsSame below e = false≢true e
is_same-IsSame above e = false≢true e

module _ (codecs : Codecs) (reader : HashReader) (l : IsPlainLog reader.log)
    (unblocked : IsUnblocked reader.header) (own value : List ℕ) (p : ℕ) (rest : List ℕ)
    (h : IsStorable (put own value))
    (here : drop p reader.log.bytes ≡ encode (put own value) ++ rest) (some : 0 < p) where
  abbrev pub at_put : LogIter → LogIter
  at_put = at_start codecs reader.log l (put own value) p rest h here

  abbrev pub behind_own : LogIter → LogIter
  behind_own = behind_key codecs reader.log l (put own value) p rest h here

  -- The key is that of the put, which the iterator is in with its key read; or it is another one.
  pub data Compared (key : List ℕ) (i : LogIter) (result : Outcome Bool × LogIter) : Type 0 where
    equal : key ≡ own → result ≡ (done true, behind_own i) → Compared key i result
    unequal :
        key ≢ own
        → (j : LogIter) → IsLoaded reader.log j
        → result ≡ (done false, j)
        → Compared key i result

  in_put-IsLoaded : (i : LogIter) → IsFor reader.log i → IsLoaded reader.log (at_put i)
  in_put-IsLoaded i f = record {
    for = record { is_open = f.is_open; same_file = f.same_file };
    block = inr (refl, refl, refl);
  }

  behind_own-IsLoaded : (i : LogIter) → IsFor reader.log i → IsLoaded reader.log (behind_own i)
  behind_own-IsLoaded i f = record {
    for = record { is_open = f.is_open; same_file = f.same_file };
    block = inr (refl, refl, refl);
  }

  last_round :
      (key : List ℕ) (fuel pos2 : ℕ) (i : LogIter)
      → length key ≤ pos2
      → compare_loop codecs reader key (suc fuel) pos2 i ≡ (done true, i)
  unfolding compare_loop
  last_round key fuel pos2 i e = rw (le→leb (length key) pos2 e) refl

  same_len :
      (key : List ℕ) (fuel : ℕ) (i : LogIter)
      → IsFor reader.log i
      → length key ≡ length own
      → length key ≤ fuel
      → Compared key i (compare_loop codecs reader key (suc fuel) 0 (at_put i))
  unfolding compare_loop ◌>>=◌
  same_len [] fuel i f e some_fuel =
      let none : own ≡ [] = length_none own (omega (arith, e)) in
      let there : prefix_len (put own value) ≡ prefix_len (put own value) + length own =
        omega (arith, e) in
      equal (sym none)
        (λ k. (done true, record (at_put i) { block_offset = there k; key_remaining = sym e k }))
  same_len (x ∷ xs) zero i f e some_fuel = absurd (omega arith)
  same_len (x ∷ xs) (suc fuel) i f e some_fuel =
      let key = x ∷ xs in
      let read =
        keychunk-key codecs reader.log l (put own value) p rest h here (length key) i f
          (omega (arith, e)) in
      let part : peek key 0 (length own) ≡ done key =
        peek_inside key 0 (length own) (omega (arith, e))
        ∙ ap done (take_all (length own) key (omega (arith, e))) in
      let more : leb (suc (length xs)) 0 ≡ false = ground arith in
      elim (Bool-cases (is_same (memcmp key own))) [
        | inl is ↦
            let eq = memcmp-IsSame key own e (is_same-IsSame (memcmp key own) is) in
            equal eq (
              rw (more, read, part, is)
                (last_round key fuel (0 + length own) (behind_own i) (omega (arith, e))))
        | inr is_not ↦
            unequal
              (λ eq.
                false≢true (sym is_not ∙ ap is_same (ap (memcmp key) (sym eq) ∙ memcmp_self key)))
              (behind_own i) (behind_own-IsLoaded i f) (rw (more, read, part, is_not) refl)
      ]

  -- The entry at the address of a put: whether it has the key.
  pub has_key-Compared :
      (key : List ℕ) (i : LogIter)
      → IsLoaded reader.log i
      → (j : LogIter) × IsFor reader.log j × Compared key j (has_key codecs reader key p i)
  unfolding has_key is_put ◌>>=◌
  has_key-Compared key i v =
      let inside = inside_data codecs reader.log l (put own value) p rest h here in
      let sought' = logiter_seek-sought codecs reader.log l p i v some inside in
      let next = next_sought codecs reader.log l (put own value) p rest h here i v.for in
      let fuel : length key + 1 ≡ suc (length key) = omega arith in
      let block = block_of_position reader.header unblocked p in
      let index = no_entry_index reader.header unblocked p in
      elim (Bool-cases (length key == length own)) [
        | inl len ↦ (
          i,
          v.for,
          rw (block, sought', index, skip_none codecs reader.log l _, next, len, fuel)
              (same_len key (length key) i v.for (==→eq _ _ len) (omega arith)),
        )
        | inr len ↦ (
          i,
          v.for,
          unequal
              (λ e.
                false≢true (sym len ∙ ap (λ x. length x == length own) e ∙ ==_refl (length own)))
              (at_put i) (in_put-IsLoaded i v.for)
              (rw (block, sought', index, skip_none codecs reader.log l _, next, len) refl),
        )
      ]
