-- ===== src/HashWriter/MaxDisplacement.antt =====
-- `calculate_max_displacement` of src/hashwriter.c, which fills in the statistics of a hash header.
pub mod Bounds
use sparkey.Base.{
  ℕ, zero, suc, ◌+◌, ◌*◌, List, Bool, false, ltb, ◌==◌, if◌then◌else◌, add64, sub64, Option, none,
  some,
}
use sparkey.Exec.{Outcome, done, thrown, fault, Exec, lift, gets, modify, ◌>>=◌, ◌>>◌}
use sparkey.HashHeader.{HashHeader}
use sparkey.HashTable.{get_displacement, read_slot, slot_size}

-- The local variables of the loop; `none` is a `has_` variable that is 0.
pub record Stats : Type 0 where
  pub max_displacement : ℕ
  pub num_hash_collisions : ℕ
  pub total_displacement : ℕ
  pub first_hash : Option ℕ
  pub last_hash : Option ℕ
  pub prev_hash : Option ℕ

is_hash : Option ℕ → ℕ → Bool
is_hash none h = false
is_hash (some g) h = g == h

both_hashes : Option ℕ → Option ℕ → Bool
unfolding is_hash
both_hashes none last = false
both_hashes (some first) last = is_hash last first

-- The slot holds the hash `h`, whose displacement is `d`; `collisions` counts it already.
occupied : (capacity slot h d collisions : ℕ) → Stats → Stats
occupied capacity slot h d collisions t = record {
  max_displacement = if ltb t.max_displacement d then d else t.max_displacement;
  num_hash_collisions = collisions;
  total_displacement = add64 t.total_displacement d;
  first_hash = if slot == 0 then some h else t.first_hash;
  last_hash = if slot == sub64 capacity 1 then some h else t.last_hash;
  prev_hash = some h;
}

-- A collision is counted where the hash of the slot before is that of this slot, whose hash is read
-- even where it is empty.
count_slot : (capacity slot h position : ℕ) → Exec Stats (Unit {0})
unfolding is_hash occupied
count_slot capacity slot h position = do
  t ← gets (λ t. t)
  let collisions =
      if is_hash t.prev_hash h then add64 t.num_hash_collisions 1 else t.num_hash_collisions
  if position == 0
      then modify (λ t. record t { num_hash_collisions = collisions; prev_hash = none })
      else (do
        d ← lift (get_displacement capacity slot h)
        modify (occupied capacity slot h d collisions))

-- The loop over the slots, of which `n` are left, from `slot` on.
stats_loop : HashHeader → List ℕ → (n slot : ℕ) → Exec Stats (Unit {0})
unfolding count_slot
stats_loop header hashtable zero slot s = (done tt, s)
stats_loop header hashtable (suc n) slot s =
    (do
      (h, position) ← lift (read_slot header hashtable (slot * slot_size header))
      count_slot header.hash_capacity slot h position
      stats_loop header hashtable n (slot + 1))
      s

no_stats : Stats
no_stats = record {
  max_displacement = 0;
  num_hash_collisions = 0;
  total_displacement = 0;
  first_hash = none;
  last_hash = none;
  prev_hash = none;
}

with_stats : HashHeader → Outcome (Unit {0}) → Stats → Outcome HashHeader
unfolding both_hashes
with_stats header (done u) t = done (record header {
  total_displacement = t.total_displacement;
  max_displacement = t.max_displacement;
  hash_collisions =
      if both_hashes t.first_hash t.last_hash
      then add64 t.num_hash_collisions 1
      else t.num_hash_collisions;
})
with_stats header (thrown c) t = thrown c
with_stats header (fault x) t = fault x

pub calculate_max_displacement : HashHeader → List ℕ → Outcome HashHeader
unfolding stats_loop no_stats with_stats
calculate_max_displacement header hashtable =
    let r = stats_loop header hashtable header.hash_capacity 0 no_stats in with_stats header r.0 r.1
