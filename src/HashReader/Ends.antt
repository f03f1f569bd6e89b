-- ===== src/HashReader/Ends.antt =====
-- The search of `sparkey_logiter_hashnext` for the slot that points to an entry ends on every table.
use sparkey.Base.{
  ℕ, zero, suc, ◌+◌, ◌≤◌, ◌<◌, Bool-cases, true, false, ltb, ◌==◌, ltb→le, inl, inr, arith,
}
use sparkey.Compress.{Codecs}
use sparkey.HashTable.Reads.{Reads, read_slot-Reads}
use sparkey.HashTable.Displacement.{get_displacement_below}
use sparkey.HashReader.{HashReader, points_loop}

module _ (codecs : Codecs) (reader : HashReader) where
  -- From any slot of any table the search answers yes or no, or reads outside the table, and it never
  -- takes more rounds than there are slots and one: the table may be full, or not be made by the writer
  -- at all. A table has a slot at least.
  pub points_loop-Reads :
      (fuel pos slot displacement position : ℕ)
      → 0 < reader.header.hash_capacity
      → reader.header.hash_capacity < fuel + displacement
      → 0 < fuel
      → Reads (points_loop codecs reader fuel pos slot displacement position)
  unfolding points_loop
  points_loop-Reads zero pos slot displacement position some enough left = absurd (omega arith)
  points_loop-Reads (suc fuel) pos slot displacement position some enough left =
      elim (read_slot-Reads reader.header reader.hashtable pos) [
        | inr e ↦ inr (rw e)
        | inl ((h, position2), e) ↦ elim (Bool-cases (position2 == 0)) [
          | inl free ↦ inl (false, rw (e, free))
          | inr used ↦ elim (Bool-cases (position == position2)) [
            | inl here ↦ inl (true, rw (e, used, here))
            | inr elsewhere ↦
                let (other, o, short) =
                  get_displacement_below reader.header.hash_capacity slot h some in
                elim (Bool-cases (ltb other displacement)) [
                  | inl far ↦ inl (false, rw (e, used, elsewhere, o, far))
                  | inr near ↦
                      let more : displacement ≤ other = ltb→le other displacement near in
                      rw (e, used, elsewhere, o, near)
                        (points_loop-Reads fuel _ _ (displacement + 1) position some (omega arith)
                          (omega arith))
                ]
          ]
        ]
      ]
