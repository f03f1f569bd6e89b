-- ===== src/Store.antt =====
-- The store as its clients see it: the entries of a log, the index that `sparkey_hash_write` builds of
-- them, and the values that a lookup gives.
pub mod Values
use sparkey.Base.{
  ℕ, ◌+◌, ◌^◌, ◌≤◌, ◌<◌, List, length, drop, All, Option, none, some, ◌≡◌, refl, sym, ap, ◌∙◌, ◌⊎◌,
  inl, inr, arith,
}
use sparkey.Exec.{Outcome, done}
use sparkey.File.{File, WriteResult, accept}
use sparkey.File.Write.{IsPlaced}
use sparkey.File.Quiet.{IsServed}
use sparkey.Compress.{Codecs}
use sparkey.Entry.{Entry, encode_all, IsStorable}
use sparkey.LogReader.{LogReader}
use sparkey.LogIter.{LogIter, fresh_iter}
use sparkey.LogIter.Plain.{IsPlainLog}
use sparkey.LogIter.Created.{fresh_iter-IsFor, fresh_iter-IsFresh, fresh_iter-IsLoaded}
use sparkey.LogIter.Seek.{IsLoaded}
use sparkey.LogHeader.{log_header_size}
use sparkey.HashHeader.{HashHeader}
use sparkey.HashTable.Order.{Slots, IsOrdered}
use sparkey.HashTable.Represents.{Represents}
use sparkey.HashTable.Fresh.{IsShaped, zeros, empty_slots, zeros-Represents, empty_slots-IsOrdered}
use sparkey.HashTable.Used.{used-empty_slots}
use sparkey.HashTable.Hashes.{hash-HashFits}
use sparkey.HashTable.Index.{IsUnblocked}
use sparkey.HashTable.Implements.{Implements}
use sparkey.HashTable.Recount.{counted, recount-Represents, recount-Implements}
use sparkey.HashReader.{HashReader, magic_value_hashreader}
use sparkey.HashWriter.SameKey.{with_iters}
use sparkey.HashWriter.Entries.{entries_loop}
use sparkey.HashWriter.KeyMap.{no_keys, indexed, count_puts, contents_from, contents_from-IsContent}
use sparkey.HashWriter.Build.Loop.{HasShortKey, FitsAddresses, Builds, entries_loop-Builds}
use sparkey.Command.{get_with}
use sparkey.Command.Get.{Answers, prints, not_found, get_with-Answers}
use sparkey.Store.Values.{last_value, no_values, values-indexed, value_at}

-- `sparkey get` prints the value and exits with 0; without a value it prints nothing and exits with 2.
abbrev pub Prints : Option (List ℕ) → File → Outcome ℕ × (LogIter × File) → Type 0
Prints none stdout result = (j : LogIter) × (result ≡ (done 2, (j, stdout)))
Prints (some value) stdout result =
    (j : LogIter) × (left : List WriteResult) × (result
      ≡ (done 0, (j, record (accept stdout value) { answers = left })))

-- The parts of the header and the log that the loop over the log relies on.
pub record IsReady (log : LogReader) (header : HashHeader) (es : List Entry) : Type 0 where
  pub plain : IsPlainLog log
  pub sized : log.header.header_size ≡ log_header_size
  pub behind_header : log_header_size ≤ log.header.data_end
  pub entries : drop log_header_size log.bytes ≡ encode_all es
  pub storable : All IsStorable es
  pub short : All HasShortKey es
  pub shape : IsShaped header
  pub unblocked : IsUnblocked header
  pub empty : header.num_entries ≡ 0
  pub room : count_puts es < header.hash_capacity
  pub addresses : FitsAddresses log header

none_of : (o : Option ℕ) → ((p : ℕ) → o ≡ some p → ⊥) → o ≡ none
none_of none h = refl
none_of (some p) h = absurd (h p refl)

-- A reader of the log with a table in memory.
abbrev pub reader_of : LogReader → HashHeader → List ℕ → ℕ → HashReader
reader_of log header table data_len = record {
  open_status = magic_value_hashreader;
  header = header;
  log = log;
  data_len = data_len;
  hashtable = table;
}

module _ (codecs : Codecs) (log : LogReader) (header : HashHeader) (es : List Entry)
    (ready : IsReady log header es) where
  abbrev pub content : ℕ → List ℕ × List ℕ
  content = contents_from es log_header_size

  pub empty-Implements : Implements log header empty_slots content no_keys
  empty-Implements = record {
    index = record {
      unblocked = ready.unblocked;
      stored = λ s less used. absurd (omega (arith, used));
      hashed = λ s less used. absurd (omega (arith, used));
      behind_header = λ s less used. absurd (omega (arith, used));
    };
    distinct = λ a b ha hb used e. absurd (omega (arith, used));
    found = λ key s holds. absurd (omega (arith, holds.1));
    present = λ key p e. absurd (cc e);
  }

  pub built :
      (garbage garbage2 : LogIter)
      → Builds log header content (indexed es log_header_size no_keys) (
          entries_loop codecs log
            (length es + 1)
            (with_iters header (zeros header) (fresh_iter garbage log) (fresh_iter garbage2 log)))
  built garbage garbage2 =
      let none_used = used-empty_slots header.hash_capacity in
      entries_loop-Builds codecs log ready.plain content es log_header_size header (zeros header)
        empty_slots no_keys (fresh_iter garbage log) (fresh_iter garbage2 log)
        (zeros-Represents header ready.shape) (empty_slots-IsOrdered header.hash_capacity)
        empty-Implements (omega (arith, none_used, ready.room))
        (omega (arith, none_used, ready.empty))
        (λ key short.
          hash-HashFits header.hash_algorithm key header.hash_seed (omega (arith, short)))
        ready.addresses ready.storable ready.short (contents_from-IsContent es log_header_size)
        (omega (arith, ready.sized)) (omega arith) ready.behind_header ready.entries
        (fresh_iter-IsFor garbage log) (inl (fresh_iter-IsFresh garbage log ready.sized))
        (fresh_iter-IsLoaded garbage2 log)

  value_of_key :
      (key : List ℕ)
      → last_value es no_values key ≡ value_at content (indexed es log_header_size no_keys key)
  value_of_key key =
      values-indexed content es log_header_size no_keys no_values
        (contents_from-IsContent es log_header_size) (λ k. refl) key

  -- A lookup with a table that gives the keys the addresses of the last puts.
  lookup-Prints :
      (n garbage data_len : ℕ) (u : List ℕ) (g : Slots)
      → Represents header u g
      → IsOrdered header.hash_capacity g
      → Implements log header g content (indexed es log_header_size no_keys)
      → (key : List ℕ) (i : LogIter) (stdout : File) → length key < 2 ^ 31
      → IsLoaded log i
      → IsPlaced stdout
      → IsServed stdout
      → Prints
          (last_value es no_values key)
          stdout
          (get_with codecs (reader_of log (counted header n garbage) u data_len) key (i, stdout))
  lookup-Prints n garbage data_len u g shown o v key i stdout short loaded placed served =
      let reader = reader_of log (counted header n garbage) u data_len in
      let counted_v = recount-Implements header n garbage g log content _ v in
      elim (get_with-Answers codecs reader g content ready.plain
        (recount-Represents header n garbage g u shown) o counted_v.index refl key i stdout short
        loaded placed served) [
          | prints s has j left run ↦
              let value : last_value es no_values key ≡ some (content (g s).1).1 =
                value_of_key key ∙ ap (value_at content) (v.found key s has) in
              rw value (j, left, run)
          | not_found absent j run ↦
              let nowhere : indexed es log_header_size no_keys key ≡ none =
                none_of _ (λ p e. let (s, has, at) = v.present key p e in absent s has) in
              let value : last_value es no_values key ≡ none =
                value_of_key key ∙ ap (value_at content) nowhere in
              rw value (j, run)
        ]

  -- The loop of `sparkey_hash_write` over a log without compression, from an empty table and new
  -- iterators, returns; and with the table that it leaves, `sparkey get` prints for every key of less
  -- than 2 ^ 31 bytes exactly the value of the last put of the key in the log, or finds nothing if there is no put of it or a
  -- delete stands behind the last one. The entries are storable and are the data of the log, their keys
  -- have 2 ^ 30 bytes at most, addresses are positions and fit the slots, and there are fewer puts than
  -- slots. The iterator of the lookup belongs to the log, with a block of it loaded or none, and
  -- every write to the standard output is served sooner or later.
  pub entries_loop-get :
      (garbage garbage2 : LogIter) (data_len : ℕ) (key : List ℕ) (k : LogIter) (stdout : File)
      → length key < 2 ^ 31
      → IsLoaded log k
      → IsPlaced stdout
      → IsServed stdout
      → (n : ℕ) × (size : ℕ) × (u : List ℕ) × (i : LogIter) × (j : LogIter) × (entries_loop codecs
            log
            (length es + 1)
            (with_iters header (zeros header) (fresh_iter garbage log) (fresh_iter garbage2 log))
          ≡ (done tt, with_iters (counted header n size) u i j))
        × Prints
            (last_value es no_values key)
            stdout
            (get_with codecs (reader_of log (counted header n size) u data_len) key (k, stdout))
  entries_loop-get garbage garbage2 data_len key k stdout short loaded placed served =
      let (n, size, u, g, i, j, ran, shown, o, v, counts) = built garbage garbage2 in
      (
        n,
        size,
        u,
        i,
        j,
        ran,
        lookup-Prints n size data_len u g shown o v key k stdout short loaded placed served,
      )
