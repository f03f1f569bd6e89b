-- ===== src/HashWriter/Build/Loop.antt =====
-- The loop of `sparkey_hash_write` (src/hashwriter.c) over a log without compression: the table that it
-- builds is the index of the entries.
use sparkey.Base.{
  ℕ, suc, ◌+◌, ◌^◌, ◌≤◌, ◌<◌, List, [], ◌∷◌, length, drop, All, length-drop, ◌≡◌, refl, ap, inr,
  arith,
}
use sparkey.Exec.{Outcome, done, ◌>>=◌}
use sparkey.Compress.{Codecs}
use sparkey.Entry.{Entry, put, delete, encode, encode_all, IsStorable}
use sparkey.LogReader.{LogReader}
use sparkey.LogIter.{LogIter}
use sparkey.LogIter.Plain.{IsPlainLog, IsFor, key_of}
use sparkey.LogIter.Next.{IsInside, ended, inside_data}
use sparkey.LogIter.Seek.{IsLoaded, within_entry}
use sparkey.LogIter.Scan.{IsBefore, next_before, next_end, encode_fits, bytes_behind}
use sparkey.HashAlgorithm.{hash}
use sparkey.HashHeader.{HashHeader}
use sparkey.HashTable.Order.{Slots, IsOrdered}
use sparkey.HashTable.Represents.{Represents}
use sparkey.HashTable.Used.{used}
use sparkey.HashTable.Slot.{HashFits, AddressFits}
use sparkey.HashWriter.{HashState}
use sparkey.HashTable.Recount.{
  counted, recount-Represents, unrecount-Represents, recount-Implements, unrecount-Implements,
}
use sparkey.HashTable.Implements.{KeyMap, assign, Implements}
use sparkey.HashWriter.SameKey.{with_iters}
use sparkey.HashWriter.Entries.{by_state, entries_loop}
use sparkey.HashWriter.KeyMap.{address_of, indexed, count_puts, IsContent}
use sparkey.HashWriter.Build.{add_current-Indexes}

-- The loop has returned, and left a table in order that gives the keys the addresses of the map, as
-- many entries counted as slots used.
abbrev pub Builds :
    LogReader
    → HashHeader
    → (content : ℕ → List ℕ × List ℕ) → KeyMap
    → Outcome (Unit {0}) × HashState
    → Type 0
Builds log header content m result =
    (n : ℕ) × (garbage : ℕ) × (u : List ℕ) × (g : Slots) × (i : LogIter) × (j : LogIter) × (result
      ≡ (done tt, with_iters (counted header n garbage) u i j))
    × Represents header u g
    × IsOrdered header.hash_capacity g
    × Implements log header g content m
    × (n ≡ used header.hash_capacity g)

abbrev pub HasShortKey : Entry → Type 0
HasShortKey e = length (key_of e) ≤ 2 ^ 30

-- Every key that is not too long has a hash that fits.
abbrev pub HasHashes : HashHeader → Type 0
HasHashes header =
    (key : List ℕ)
    → length key ≤ 2 ^ 30
    → (h : ℕ) × (hash header.hash_algorithm key header.hash_seed ≡ done h)
      × HashFits header.hash_algorithm h

-- Every position in the data fits the size of addresses.
abbrev pub FitsAddresses : LogReader → HashHeader → Type 0
FitsAddresses log header = (p : ℕ) → p < log.header.data_end → AddressFits header.address_size p

first-IsContent :
    (content : ℕ → List ℕ × List ℕ) (e : Entry) (es : List Entry) (p : ℕ)
    → IsContent content (e ∷ es) p
    → IsContent content (e ∷ []) p
first-IsContent content (put key value) es p k = (k.0, tt)
first-IsContent content (delete key) es p k = tt

rest-IsContent :
    (content : ℕ → List ℕ × List ℕ) (e : Entry) (es : List Entry) (p : ℕ)
    → IsContent content (e ∷ es) p
    → IsContent content es (p + length (encode e))
rest-IsContent content (put key value) es p k = k.1
rest-IsContent content (delete key) es p k = k

module _ (codecs : Codecs) (log : LogReader) (l : IsPlainLog log)
    (content : ℕ → List ℕ × List ℕ) where
  -- The loop over entries whose bytes are the rest of the data.
  pub entries_loop-Builds :
      (es : List Entry) (p : ℕ) (header : HashHeader) (t : List ℕ) (f : Slots) (m : KeyMap)
      (i j : LogIter)
      → Represents header t f
      → IsOrdered header.hash_capacity f
      → Implements log header f content m
      → used header.hash_capacity f + count_puts es < header.hash_capacity
      → header.num_entries ≡ used header.hash_capacity f
      → HasHashes header
      → FitsAddresses log header
      → All IsStorable es
      → All HasShortKey es
      → IsContent content es p
      → log.header.header_size ≤ p
      → 0 < p
      → p ≤ log.header.data_end
      → drop p log.bytes ≡ encode_all es
      → IsFor log i
      → IsBefore log i p
      → IsLoaded log j
      → Builds log header content
          (indexed es p m)
          (entries_loop codecs log (length es + 1) (with_iters header t i j))
  unfolding entries_loop by_state indexed count_puts ◌>>=◌
  entries_loop-Builds [] p header t f m i j r o v room counts hashes fits ok short own behind_header
        pos in_data here for before loaded =
      let last : p ≡ log.header.data_end =
        omega (arith, ap length here, length-drop p log.bytes, l.sized) in
      (
        header.num_entries,
        header.garbage_size,
        t,
        f,
        ended codecs log l i,
        j,
        rw (next_end codecs log l i p for before last) refl,
        r,
        o,
        v,
        counts,
      )
  entries_loop-Builds (e ∷ es) p header t f m i j r o v room counts hashes fits ok short own
        behind_header pos in_data here for before loaded =
      let rest = encode_all es in
      let (h, hashed, hash_fits) = hashes (key_of e) short.0 in
      let inside = inside_data codecs log l e p rest ok.0 here in
      let (
        n,
        garbage,
        u,
        g,
        i',
        j',
        ran,
        shown,
        o',
        v',
        counts',
        few,
        (base, offset, k, w, f', at, all),
        loaded',
      ) =
        add_current-Indexes codecs log l header t f content m r o v (omega (arith, room)) counts e p
          rest ok.0 here i j h behind_header pos short.0 hashed (hash_fits, fits p inside)
          (first-IsContent content e es p own) for loaded in
      let p' = p + length (encode e) in
      let ends = encode_fits codecs log l e p rest ok.0 here in
      let behind_e = within_entry log e p base offset k w in
      let next_inside : IsInside log behind_e p' = record {
        state = refl;
        next = refl;
        len = omega (arith, inside);
        entry_end = omega (arith, all, ends.0);
        in_data = ends.1;
      } in
      let again = counted header n garbage in
      let (n2, garbage2, u2, g2, i2, j2, ran2, shown2, o2, v2, counts2) =
        entries_loop-Builds es p' again u g (assign (key_of e) (address_of e p) m) behind_e j'
          (recount-Represents header n garbage g u shown) o'
          (recount-Implements header n garbage g log content _ v')
          (omega (arith, room, counts, few, counts')) counts' hashes fits ok.1 short.1
          (rest-IsContent content e es p own) (omega (arith, behind_header)) (omega (arith, pos))
          ends.1 (bytes_behind codecs log l e p rest ok.0 here)
          (record { is_open = f'.is_open; same_file = f'.same_file }) (inr next_inside) loaded' in
      let fuel : suc (length es) + 1 ≡ suc (length es + 1) = omega arith in
      (
        n2,
        garbage2,
        u2,
        g2,
        i2,
        j2,
        rw (fuel, next_before codecs log l e p rest ok.0 here i for before, ran, at) ran2,
        unrecount-Represents header n garbage g2 u2 shown2,
        o2,
        unrecount-Implements header n garbage g2 log content _ v2,
        counts2,
      )
