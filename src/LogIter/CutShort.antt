-- ===== src/LogIter/CutShort.antt =====
-- `skip` on a log that ends inside an entry (src/logreader.c).
use sparkey.Base.{ℕ, zero, suc, ◌-◌, ◌≤◌, false, ltb, le→ltb, le→leb, ◌≡◌, refl, arith}
use sparkey.Exec.{fault, out_of_fuel, ◌>>=◌}
use sparkey.Compress.{Codecs}
use sparkey.LogReader.{LogReader}
use sparkey.LogIter.{LogIter, ensure_available, skip_loop}

module _ (codecs : Codecs) (log : LogReader) where
  -- Where the block of the iterator is used up, no block follows it and something is left to skip, the
  -- loop of `skip` is not done after any number of rounds: the call does not return.
  pub skip_loop_never_ends :
      (rounds len : ℕ) (i : LogIter)
      → i.block_len ≤ i.block_offset
      → log.header.data_end ≤ i.next_block_position
      → (skip_loop codecs log rounds (suc len) i).0 ≡ fault out_of_fuel
  unfolding skip_loop ensure_available ◌>>=◌
  skip_loop_never_ends zero len i used last = refl
  skip_loop_never_ends (suc rounds) len i used last =
      let j = record i { block_position = 0; block_offset = 0; block_len = 0 } in
      let again = skip_loop_never_ends rounds len j (omega arith) last in
      let none_taken : ltb (suc len) 0 ≡ false = le→ltb (suc len) 0 (omega arith) in
      let all_left : suc len - 0 ≡ suc len = omega arith in
      rw
        (
          le→ltb i.block_offset i.block_len used,
          le→leb log.header.data_end i.next_block_position last,
          none_taken,
          all_left,
        )
        again
