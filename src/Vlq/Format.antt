-- ===== src/Vlq/Format.antt =====
-- The bytes of a number in plain arithmetic, and that `write_vlq` writes them.
use sparkey.Base.{
  ℕ, zero, suc, ◌+◌, ◌-◌, ◌/◌, ◌%◌, ◌^◌, ◌<◌, bit_and, bit_or, List, [], ◌∷◌, ltb, length, IsU64,
  if◌then◌else◌, ◌≡◌, ap, ◌∙◌, arith,
}
use sparkey.Base.Bits.{bit_and_mask, bit_or_shift}
use sparkey.Vlq.{write_vlq_loop, write_vlq}
use mathlib.Core.WellFounded.{Acc}

-- The groups of `v`, for `v` below 128 ^ (k + 1).
unfoldable pub groups : ℕ → ℕ → List ℕ
groups zero v = v ∷ []
groups (suc k) v =
    let rest = groups k (v / 128) in if ltb v 128 then v ∷ [] else (v % 128 + 128) ∷ rest

-- Every uint64_t fits ten groups.
abbrev pub vlq : ℕ → List ℕ
vlq = groups 9

inner_group : (v : ℕ) → bit_or (bit_and v 0x7f) 0x80 ≡ v % 128 + 128
inner_group v = rw (bit_and_mask 7 v) (bit_or_shift 7 (v % 128) 1 (omega arith))

write_vlq_loop-groups :
    (k v c : ℕ) (w : Acc ◌<◌ v)
    → v < 128 ^ suc k
    → write_vlq_loop v c w ≡ (groups k v, c + length (groups k v) - 1)
unfolding write_vlq_loop groups
write_vlq_loop-groups zero v c (Acc.intro _ smaller) h = ground arith
write_vlq_loop-groups (suc k) v c (Acc.intro _ smaller) h = grind (
  arith,
  inner_group v,
  λ (w : Acc ◌<◌ (v / 128)). write_vlq_loop-groups k (v / 128) (c + 1) w (omega arith),
)

-- On a 64-bit number `write_vlq` ends and writes exactly the groups of the number, and counts them.
pub write_vlq-vlq : (v : ℕ) → IsU64 v → write_vlq v ≡ (vlq v, length (vlq v))
unfolding write_vlq
write_vlq-vlq v h = write_vlq_loop-groups 9 v 1 _ (omega arith) ∙ ap (λ n. (vlq v, n)) (omega arith)
