-- ===== src/Vlq/RoundTrip.antt =====
-- `read_vlq` reads back what `write_vlq` wrote, wherever it stands in the array.
use sparkey.Base.{
  ℕ, zero, suc, ◌+◌, ◌*◌, ◌/◌, ◌%◌, ◌^◌, ◌<◌, List, ◌∷◌, ◌++◌, drop, length, IsU64, ◌≡◌, sym, ap,
  arith,
}
use sparkey.Base.Bits.{bit_and_mask, bit_or_shift}
use sparkey.Exec.{done}
use sparkey.Vlq.{read_vlq_loop, read_vlq}
use sparkey.Vlq.Format.{groups, vlq}
use native.Mathlib.Nat.{div-add-mod}
use native.Mathlib.Numerals.{towards_suc}

last_byte :
    (w res shift position : ℕ) (rest : List ℕ)
    → w < 128
    → shift < 64
    → res < 2 ^ shift
    → IsU64 (res + w * 2 ^ shift)
    → position + 1 < 2 ^ 64
    → read_vlq_loop (w ∷ rest) position res shift ≡ done (res + w * 2 ^ shift, position + 1)
unfolding read_vlq_loop
last_byte w res shift position rest hw hs hr fits hp =
    ground (arith, bit_and_mask 7 w, bit_or_shift shift res w)

inner_byte :
    (g res shift position : ℕ) (rest : List ℕ)
    → g < 128
    → shift < 64
    → res < 2 ^ shift
    → IsU64 (res + g * 2 ^ shift)
    → position + 1 < 2 ^ 64
    → read_vlq_loop ((g + 128) ∷ rest) position res shift
      ≡ read_vlq_loop rest (position + 1) (res + g * 2 ^ shift) (shift + 7)
unfolding read_vlq_loop
inner_byte g res shift position rest hg hs hr fits hp =
    ground (arith, bit_and_mask 7 (g + 128), bit_or_shift shift res g)

-- Seven bits more, and a number whose lowest seven bits stand at `s` and whose others at `s + 7`.
next_shift : (p : ℕ) → 2 ^ (p + 7) ≡ 2 ^ p * 128
next_shift p = simp towards_suc (omega arith)

regroup : (n p : ℕ) → n % 128 * 2 ^ p + n / 128 * 2 ^ (p + 7) ≡ n * 2 ^ p
regroup n p =
    let up : n / 128 * 2 ^ (p + 7) ≡ n / 128 * (2 ^ p * 128) =
      ap (λ q. n / 128 * q) (next_shift p) in
    let whole : n * 2 ^ p ≡ (128 * (n / 128) + n % 128) * 2 ^ p =
      ap (λ q. q * 2 ^ p) (sym (div-add-mod n 128)) in
    omega (arith, up, whole)

low_group-lt : (g res s : ℕ) → g < 128 → res < 2 ^ s → res + g * 2 ^ s < 2 ^ (s + 7)
low_group-lt g res s hg hr = rw (next_shift s) (grind arith)

-- `w` is what is still to be read, and it counts from bit `shift` on.
read_vlq_loop-groups :
    (k w res shift position : ℕ) (rest : List ℕ)
    → w < 128 ^ suc k
    → shift + 7 * k < 64
    → res < 2 ^ shift
    → IsU64 (res + w * 2 ^ shift)
    → position + length (groups k w) < 2 ^ 64
    → read_vlq_loop (groups k w ++ rest) position res shift
      ≡ done (res + w * 2 ^ shift, position + length (groups k w))
unfolding groups
read_vlq_loop-groups zero w res shift position rest hw hs hr fits hp =
    last_byte w res shift position rest hw (omega arith) hr fits hp
read_vlq_loop-groups (suc k) w res shift position rest hw hs hr fits hp = ground (
  arith,
  last_byte w res shift position rest,
  regroup w shift,
  inner_byte (w % 128) res shift position (groups k (w / 128) ++ rest),
  low_group-lt (w % 128) res shift,
  read_vlq_loop-groups k (w / 128) (res + w % 128 * 2 ^ shift) (shift + 7) (position + 1) rest
      (omega arith) (omega arith),
)

-- Where the groups of a 64-bit number stand in an array, `read_vlq` ends, gives the number and moves the
-- position behind them, whatever follows. The position stays below 2 ^ 64.
pub read_vlq-vlq :
    (v position : ℕ) (array rest : List ℕ)
    → IsU64 v
    → drop position array ≡ vlq v ++ rest
    → position + length (vlq v) < 2 ^ 64
    → read_vlq array position ≡ done (v, position + length (vlq v))
unfolding read_vlq
read_vlq-vlq v position array rest h e hp =
    rw e (ground (arith, read_vlq_loop-groups 9 v 0 0 position rest))
