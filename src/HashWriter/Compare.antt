-- ===== src/HashWriter/Compare.antt =====
-- The comparison of keys in `hash_put` and `hash_delete` (src/hashwriter.c), on a log without
-- compression: the current entry against the put at the address in a slot.
use sparkey.Base.{
  ℕ, ◌+◌, ◌^◌, ◌≤◌, ◌<◌, ◌==◌, ==→eq, ==_refl, List, ◌++◌, length, drop, Bool-cases, none, some,
  ◌≡◌, ◌≢◌, refl, sym, ap, ◌∙◌, ◌⊎◌, inl, inr, arith,
}
use mathlib.Core.Bool.{false≢true}
use mathlib.Core.Path.{subst}
use sparkey.Exec.{done, ◌>>=◌}
use sparkey.Compress.{Codecs}
use sparkey.Entry.{Entry, put, encode, IsStorable}
use sparkey.LogReader.{LogReader}
use sparkey.LogIter.{LogIter}
use sparkey.LogIter.Plain.{IsPlainLog, IsFor, prefix_len, key_of, value_of}
use sparkey.LogIter.Next.{inside_data}
use sparkey.LogIter.Seek.{
  IsLoaded, within_entry, logiter_seek-sought, next_sought, skip_none, reset-at_entry,
}
use sparkey.LogIter.Chunks.{Order, below, same, above, memcmp}
use sparkey.LogIter.Chunks.Compare.{IsSame, memcmp_self, memcmp-IsSame}
use sparkey.LogIter.Chunks.Key.{at_start, behind_key, keycmp-memcmp}
use sparkey.HashHeader.{HashHeader}
use sparkey.HashTable.Index.{IsUnblocked, block_of_position, no_entry_index}
use sparkey.HashWriter.{is_put, if_same, same_key}
use sparkey.HashWriter.Asks.{Found}
use sparkey.HashWriter.SameKey.{with_iters}

-- The iterator is in the entry at `p`, with any first part of it read.
abbrev pub IsIn : LogReader → Entry → (p : ℕ) → LogIter → Type 0
IsIn log e p i =
    (base : LogIter) × (offset : ℕ) × (key : ℕ) × (value : ℕ) × IsFor log base
    × (i ≡ within_entry log e p base offset key value)
    × (offset + key + value ≡ prefix_len e + length (key_of e) + length (value_of e))

-- What the comparison says of two keys.
abbrev pub Says : (current other value : List ℕ) → Found → Type 0
Says current other value a =
    ((current ≡ other) × (a ≡ done (some (length other, length value))))
    ⊎ ((current ≢ other) × (a ≡ done none))

module _ (codecs : Codecs) (log : LogReader) (l : IsPlainLog log) (header : HashHeader)
    (unblocked : IsUnblocked header) (t : List ℕ) (e : Entry) (p : ℕ) (rest : List ℕ)
    (h : IsStorable e) (here : drop p log.bytes ≡ encode e ++ rest) (pos : 0 < p)
    (short : length (key_of e) ≤ 2 ^ 30) (key value : List ℕ) (p2 : ℕ) (rest2 : List ℕ)
    (h2 : IsStorable (put key value)) (there : drop p2 log.bytes ≡ encode (put key value) ++ rest2)
    (pos2 : 0 < p2) where
  memcmp_equal : key_of e ≡ key → memcmp (key_of e) key ≡ same
  memcmp_equal eq = ap (memcmp (key_of e)) (sym eq) ∙ memcmp_self (key_of e)

  of_order :
      length (key_of e) ≡ length key
      → (o : Order) → memcmp (key_of e) key ≡ o
      → Says (key_of e) key value (done (if_same o (length key, length value)))
  unfolding if_same
  of_order len same is = inl (memcmp-IsSame (key_of e) key len (subst IsSame (sym is) tt), refl)
  of_order len below is = inr (λ eq. subst IsSame (sym (memcmp_equal eq) ∙ is) tt, refl)
  of_order len above is = inr (λ eq. subst IsSame (sym (memcmp_equal eq) ∙ is) tt, refl)

  if_same-Says :
      length (key_of e) ≡ length key
      → Says
          (key_of e)
          key
          value
          (done (if_same (memcmp (key_of e) key) (length key, length value)))
  if_same-Says len = of_order len (memcmp (key_of e) key) refl

  pub same_key-Says :
      (i j : LogIter)
      → IsIn log e p i
      → IsLoaded log j
      → (a : Found) × (i' : LogIter) × (j' : LogIter) × (same_key codecs log p2
            (with_iters header t i j)
          ≡ (a, with_iters header t i' j'))
        × (IsIn log e p i' × IsLoaded log j')
        × Says (key_of e) key value a
  unfolding same_key is_put ◌>>=◌
  same_key-Says i j (base, offset, k, v, f, at, all) w =
      let other = at_start codecs log l (put key value) p2 rest2 h2 there j in
      let other_for : IsFor log other = record {
        is_open = w.for.is_open;
        same_file = w.for.same_file;
      } in
      let other_loaded : IsLoaded log other = record {
        for = other_for;
        block = inr (refl, refl, refl);
      } in
      let seek =
        logiter_seek-sought codecs log l p2 j w pos2
          (inside_data codecs log l (put key value) p2 rest2 h2 there) in
      let next = next_sought codecs log l (put key value) p2 rest2 h2 there j w.for in
      let block = block_of_position header unblocked p2 in
      let index = no_entry_index header unblocked p2 in
      elim (Bool-cases (length (key_of e) == length key)) [
        | inr len ↦ (
          done none,
          i,
          other,
          rw (at, block, index, seek, skip_none codecs log l _, next, len) refl,
          ((base, offset, k, v, f, at, all), other_loaded),
          inr (
            λ eq. false≢true (sym len ∙ ap (λ x. length x == length key) eq ∙ ==_refl (length key)),
            refl,
          ),
        )
        | inl len ↦
            let same_len = ==→eq _ _ len in
            let reset = reset-at_entry codecs log l e p rest h here base offset k v f pos in
            let cmp =
              keycmp-memcmp codecs log l e (put key value) p p2 rest rest2 h h2 here there base j f
                w.for same_len short in
            (
              done (if_same (memcmp (key_of e) key) (length key, length value)),
              behind_key codecs log l e p rest h here base,
              behind_key codecs log l (put key value) p2 rest2 h2 there j,
              rw (at, block, index, seek, skip_none codecs log l _, next, len, reset, cmp) refl,
              (
                (base, _, _, _, f, refl, omega arith),
                record {
                  for = record { is_open = w.for.is_open; same_file = w.for.same_file };
                  block = inr (refl, refl, refl);
                },
              ),
              if_same-Says same_len,
            )
      ]
