-- ===== src/HashWriter/Plan.antt =====
-- What `sparkey_hash_write` of src/hashwriter.c takes from an old header, and the header it starts with.
pub mod Start
use sparkey.Base.{
  ℕ, ◌-◌, ◌^◌, Bool, ◌&&◌, ◌||◌, ltb, leb, ◌==◌, Option, none, some, if◌then◌else◌, add64, sub64,
  bit_or,
}
use sparkey.ReturnCode.{hash_size_invalid}
use sparkey.Exec.{Outcome, done, thrown, fault, Exec, pure, lift, ◌>>=◌}
use sparkey.HashAlgorithm.{HashAlgorithm, murmurhash32, get_hash_algorithm}
use sparkey.HashHeader.{HashHeader, bitmask, hash_major_version, hash_minor_version}
use sparkey.LogHeader.{LogHeader}
use sparkey.LogWriter.Open.{rand32}
use sparkey.HashWriter.{int_log2}

-- What is taken from an old header, or set without one: the capacity before it is made odd, the
-- position to start at, the seed, the garbage so far, whether to copy, and the size of hashes.
pub record Plan : Type 0 where
  pub cap : ℕ
  pub start : ℕ
  pub hash_seed : ℕ
  pub garbage_size : ℕ
  pub copy_old : Option HashHeader
  pub old_hash_size : ℕ

pub is_usable : LogHeader → HashHeader → Bool
is_usable log old =
    (old.file_identifier == log.file_identifier)
    && ((old.major_version == hash_major_version) && (old.minor_version == hash_minor_version))

-- `times` is the conversion to a double, the product with 1.3 and the conversion to uint64_t.
pub fresh_plan : (times : ℕ → ℕ) → LogHeader → Option ℕ → Exec (Unit {0}) Plan
fresh_plan times log random = do
  hash_seed ← rand32 random
  pure (record {
    cap = times log.num_puts;
    start = log.header_size;
    hash_seed = hash_seed;
    garbage_size = 0;
    copy_old = none;
    old_hash_size = 0;
  })

-- An old header that cannot be loaded is as none.
unfoldable pub plan_for :
    (times : ℕ → ℕ) → LogHeader → Option ℕ → Outcome HashHeader → Exec (Unit {0}) Plan
unfolding is_usable fresh_plan
plan_for times log random (fault x) = lift (fault x)
plan_for times log random (thrown c) = fresh_plan times log random
plan_for times log random (done old) =
    if is_usable log old
    then pure (record {
      cap = times (add64 (sub64 log.num_puts old.num_puts) old.num_entries);
      start = old.data_end;
      hash_seed = old.hash_seed;
      garbage_size = old.garbage_size;
      copy_old = some old;
      old_hash_size = old.hash_size;
    })
    else fresh_plan times log random

pub choose_hash_size : (asked old_hash_size hash_capacity : ℕ) → Outcome ℕ
choose_hash_size asked old_hash_size hash_capacity =
    if asked == 0
    then done (if (old_hash_size == 8) || leb (2 ^ 23) hash_capacity then 8 else 4)
    else if (asked == 4) || (asked == 8)
    then done asked
    else thrown hash_size_invalid

-- `sparkey_get_hash_algorithm` is called for the sizes 4 and 8 only.
pub algorithm_of : Option HashAlgorithm → HashAlgorithm
algorithm_of none = murmurhash32
algorithm_of (some a) = a

-- The header before the entries are put. `hash_size` is the argument, 0 where it is for the library
-- to choose; a size below 0 is invalid as any other.
unfoldable pub start_header : LogHeader → Plan → HashHeader → (hash_size : ℕ) → Outcome HashHeader
unfolding choose_hash_size algorithm_of
start_header log plan garbage hash_size =
    let hash_capacity = bit_or 1 plan.cap in
    let bits = int_log2 log.max_entries_per_block in
    ((do
      mask ← lift (bitmask bits)
      size ← lift (choose_hash_size hash_size plan.old_hash_size hash_capacity)
      pure (record garbage {
        garbage_size = plan.garbage_size;
        hash_capacity = hash_capacity;
        hash_seed = plan.hash_seed;
        max_key_len = log.max_key_len;
        max_value_len = log.max_value_len;
        data_end = log.data_end;
        num_puts = log.num_puts;
        entry_block_bits = bits;
        entry_block_bitmask = mask;
        address_size = if ltb log.data_end (2 ^ (32 - bits)) then 4 else 8;
        hash_size = size;
        hash_algorithm = algorithm_of (get_hash_algorithm size);
        max_displacement = 0;
        total_displacement = 0;
        num_entries = 0;
        hash_collisions = 0;
      }))
      tt).0

-- Whether the old table is copied: only where it has hashes of the same size.
unfoldable pub old_to_copy : Option HashHeader → HashHeader → Option HashHeader
old_to_copy none header = none
old_to_copy (some old) header = if header.hash_size == old.hash_size then some old else none
