-- ===== src/Vlq.antt =====
-- `write_vlq` (src/logwriter.c), `read_vlq` (src/logreader.c), `unsigned_vlq_size` (src/hashwriter.c).
-- Lengths are stored as seven bits a byte, lowest first, the top bit set on all bytes but the last.
pub mod Format
pub mod Size
pub mod RoundTrip
use sparkey.Base.{
  ℕ, suc, ◌+◌, ◌*◌, ◌/◌, ◌%◌, ◌^◌, ◌<◌, bit_and, bit_or, List, [], ◌∷◌, ltb, leb, ◌==◌, drop,
  if◌then◌else◌, u64, add64, arith,
}
use sparkey.Base.Order.{lt_wf}
use sparkey.Exec.{Outcome, done, fault, out_of_bounds, undefined_shift}
use mathlib.Core.Logic.{dite}
use mathlib.Core.WellFounded.{Acc}
use native.Mathlib.Decide.{dec_lt}

shift_shrinks : (v : ℕ) → 127 < v → v / 128 < v
shift_shrinks v h = omega arith

-- `buf` from the pointer on, and `count`. `value >= 1 << 7` is `127 < value`.
write_vlq_loop : (value count : ℕ) → Acc ◌<◌ value → List ℕ × ℕ
write_vlq_loop value count (Acc.intro _ smaller) =
    dite (dec_lt 127 value)
      (λ more.
        let (rest, total) =
          write_vlq_loop (value / 128) (count + 1) (smaller _ (shift_shrinks value more)) in
        (bit_or (bit_and value 0x7f) 0x80 ∷ rest, total))
      (λ _. (value % 256 ∷ [], count))

-- The bytes written and their number.
pub write_vlq : ℕ → List ℕ × ℕ
write_vlq value = write_vlq_loop value 1 (lt_wf.apply value)

-- The list is `array` from `*position` on. A shift by 64 or more is undefined in C.
read_vlq_loop : List ℕ → (position res shift : ℕ) → Outcome (ℕ × ℕ)
read_vlq_loop [] position res shift = fault out_of_bounds
read_vlq_loop (tmp ∷ rest) position res shift =
    let tmp2 = bit_and tmp 0x7f in
    let next = add64 position 1 in
    let more = read_vlq_loop rest next (bit_or res (u64 (tmp2 * 2 ^ shift))) (shift + 7) in
    if leb 64 shift
    then fault undefined_shift
    else if tmp == tmp2
    then done (bit_or res (u64 (tmp * 2 ^ shift)), next)
    else more

-- The number read and the new `*position`.
pub read_vlq : List ℕ → ℕ → Outcome (ℕ × ℕ)
read_vlq array position = read_vlq_loop (drop position array) position 0 0

pub unsigned_vlq_size : ℕ → ℕ
unsigned_vlq_size value =
    if ltb value (2 ^ 7)
    then 1
    else if ltb value (2 ^ 14)
    then 2
    else if ltb value (2 ^ 21)
    then 3
    else if ltb value (2 ^ 28)
    then 4
    else if ltb value (2 ^ 35)
    then 5
    else if ltb value (2 ^ 42)
    then 6
    else if ltb value (2 ^ 49)
    then 7
    else if ltb value (2 ^ 56)
    then 8
    else if ltb value (2 ^ 63)
    then 9
    else 10
