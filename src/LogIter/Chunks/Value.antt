-- ===== src/LogIter/Chunks/Value.antt =====
-- The value of an entry of a log without compression, read as one chunk behind its key
-- (`sparkey_logiter_valuechunk` of src/logreader.c).
use sparkey.Base.{
  ℕ, ◌+◌, ◌-◌, ◌≤◌, List, [], ◌++◌, length, take, drop, take-length-append, ◌≡◌, refl, ap, ◌∙◌,
  arith,
}
use sparkey.Exec.{done, ◌>>=◌}
use sparkey.Compress.{Codecs}
use sparkey.Entry.{Entry, encode, IsStorable}
use sparkey.LogReader.{LogReader}
use sparkey.LogIter.{LogIter}
use sparkey.LogIter.Chunks.{valuechunk}
use sparkey.LogIter.Chunks.Read.{IsReadable, bytes_at}
use sparkey.LogIter.Chunks.Key.{whole_chunk, behind_key}
use sparkey.LogIter.Plain.{IsPlainLog, IsFor, skip_plain, prefix_len, key_of, value_of}
use sparkey.LogIter.Next.{settled}
use sparkey.LogIter.Scan.{at_value, readable}
use sparkey.LogIter.Seek.{within_entry}

module _ (codecs : Codecs) (log : LogReader) (l : IsPlainLog log) (e : Entry) (p : ℕ)
    (rest : List ℕ) (h : IsStorable e) (here : drop p log.bytes ≡ encode e ++ rest) where
  abbrev behind_own_key : LogIter → LogIter
  behind_own_key i = behind_key codecs log l e p rest h here i

  -- The iterator behind the entry.
  abbrev pub behind_value : LogIter → LogIter
  behind_value i =
      within_entry log e p i (prefix_len e + length (key_of e) + length (value_of e)) 0 0

  behind_own_key-IsReadable : (i : LogIter) → IsReadable (behind_own_key i)
  behind_own_key-IsReadable i =
      let r = readable codecs log l e p rest h here (settled log i) in
      record { state = refl; fits = omega (arith, r.fits); in_buf = r.in_buf; small = r.small }

  pub valuechunk-value :
      (maxlen : ℕ) (i : LogIter)
      → IsFor log i
      → length (value_of e) ≤ maxlen
      → valuechunk codecs log maxlen (behind_own_key i) ≡ (done (value_of e), behind_value i)
  unfolding valuechunk ◌>>=◌
  valuechunk-value maxlen i f m =
      let j = behind_own_key i in
      let r = behind_own_key-IsReadable i in
      let n = length (value_of e) in
      let value : bytes_at j n ≡ value_of e =
        ap (take n) (at_value codecs log l e p rest h here)
        ∙ take-length-append (value_of e) _ _ refl in
      let same : prefix_len e + length (key_of e) + 0 ≡ prefix_len e + length (key_of e) =
        omega arith in
      let none_left : n - n ≡ 0 = omega arith in
      rw
        (
          skip_plain codecs log 0 j (omega (arith, r.fits)) r.small,
          same,
          whole_chunk codecs log l maxlen n j
              (record { is_open = f.is_open; same_file = f.same_file }) r m (omega (arith, r.fits)),
          value,
          none_left,
        )
        refl

  pub valuechunk-none :
      (maxlen : ℕ) (i : LogIter)
      → IsFor log i
      → valuechunk codecs log maxlen (behind_value i) ≡ (done [], behind_value i)
  unfolding valuechunk ◌>>=◌
  valuechunk-none maxlen i f =
      let j = behind_value i in
      let r = behind_own_key-IsReadable i in
      let n = prefix_len e + length (key_of e) + length (value_of e) in
      let same : n + 0 ≡ n = omega arith in
      let readable_end : IsReadable j = record {
        state = refl;
        fits = omega (arith, r.fits);
        in_buf = r.in_buf;
        small = r.small;
      } in
      rw
        (
          skip_plain codecs log 0 j (omega (arith, r.fits)) r.small,
          same,
          whole_chunk codecs log l maxlen 0 j
              (record { is_open = f.is_open; same_file = f.same_file }) readable_end (omega arith)
              (omega (arith, r.fits)),
          same,
        )
        refl
