-- ===== src/HashWriter/Plan/Start.antt =====
-- The header that `sparkey_hash_write` of src/hashwriter.c starts with, for a log without blocks.
use sparkey.Base.{
  ℕ, ◌+◌, ◌*◌, ◌/◌, ◌^◌, ◌≤◌, ◌<◌, ◌==◌, ltb, leb, ltb→lt, Bool-cases, ◌||◌, bit_or, if◌then◌else◌,
  ◌≡◌, refl, ◌⊎◌, inl, inr, arith,
}
use sparkey.Base.Bits.{bit_or_one}
use sparkey.Exec.{done, ◌>>=◌}
use sparkey.HashAlgorithm.{get_hash_algorithm}
use sparkey.LogHeader.{LogHeader}
use sparkey.HashHeader.{HashHeader, bitmask}
use sparkey.HashTable.Slot.{hash_len, AddressFits}
use sparkey.HashTable.Fresh.{IsShaped}
use sparkey.HashTable.Index.{IsUnblocked}
use sparkey.HashWriter.{int_log2, int_log2_loop}
use sparkey.HashWriter.Plan.{Plan, choose_hash_size, algorithm_of, start_header}

-- A header for an empty table that may index the log.
pub record IsStart (log : LogHeader) (cap : ℕ) (header : HashHeader) : Type 0 where
  pub shape : IsShaped header
  pub unblocked : IsUnblocked header
  pub empty : header.num_entries ≡ 0
  pub capacity : cap ≤ header.hash_capacity
  pub odd : header.hash_capacity ≡ cap / 2 * 2 + 1
  pub addresses : (p : ℕ) → p < log.data_end → AddressFits header.address_size p

-- The size is one that the library knows, or is for it to choose.
abbrev pub IsAsked : ℕ → Type 0
IsAsked n = (n ≡ 0) ⊎ ((n ≡ 4) ⊎ (n ≡ 8))

abbrev IsHashSize : ℕ → Type 0
IsHashSize n = (n ≡ 4) ⊎ (n ≡ 8)

size_chosen :
    (asked old capacity : ℕ)
    → IsAsked asked
    → (size : ℕ) × (choose_hash_size asked old capacity ≡ done size) × IsHashSize size
unfolding choose_hash_size
size_chosen asked old capacity (inl none) =
    elim (Bool-cases ((old == 8) || leb (2 ^ 23) capacity)) [
      | inl long ↦ (8, rw (none, long) refl, inr refl)
      | inr short ↦ (4, rw (none, short) refl, inl refl)
    ]
size_chosen asked old capacity (inr (inl four)) = (4, rw four refl, inl refl)
size_chosen asked old capacity (inr (inr eight)) = (8, rw eight refl, inr refl)

algorithm_fits :
    (size : ℕ) → IsHashSize size → size ≡ hash_len (algorithm_of (get_hash_algorithm size))
unfolding algorithm_of get_hash_algorithm
algorithm_fits size (inl e) = rw e refl
algorithm_fits size (inr e) = rw e refl

table_small :
    (capacity a size : ℕ)
    → capacity ≤ 2 ^ 58
    → IsHashSize a
    → IsHashSize size
    → capacity * (a + size) < 2 ^ 63
table_small capacity a size h (inl x) (inl y) = rw (x, y) (omega arith)
table_small capacity a size h (inl x) (inr y) = rw (x, y) (omega arith)
table_small capacity a size h (inr x) (inl y) = rw (x, y) (omega arith)
table_small capacity a size h (inr x) (inr y) = rw (x, y) (omega arith)

module _ (log : LogHeader) (plan : Plan) (garbage : HashHeader) (size : ℕ) (known : IsHashSize size)
    (small : plan.cap < 2 ^ 58) where
  -- The header with a size of hashes and no blocks.
  abbrev begun : HashHeader
  begun = record garbage {
    garbage_size = plan.garbage_size;
    hash_capacity = bit_or 1 plan.cap;
    hash_seed = plan.hash_seed;
    max_key_len = log.max_key_len;
    max_value_len = log.max_value_len;
    data_end = log.data_end;
    num_puts = log.num_puts;
    entry_block_bits = 0;
    entry_block_bitmask = 0;
    address_size = if ltb log.data_end (2 ^ 32) then 4 else 8;
    hash_size = size;
    hash_algorithm = algorithm_of (get_hash_algorithm size);
    max_displacement = 0;
    total_displacement = 0;
    num_entries = 0;
    hash_collisions = 0;
  }

  address_sizes : (begun.address_size ≡ 4) ⊎ (begun.address_size ≡ 8)
  address_sizes = elim (Bool-cases (ltb log.data_end (2 ^ 32))) [
    | inl short ↦ inl (rw short refl)
    | inr long ↦ inr (rw long refl)
  ]

  begun-IsStart : log.data_end < 2 ^ 63 → IsStart log plan.cap begun
  begun-IsStart in_file =
      let odd = bit_or_one plan.cap in
      record {
        shape = record {
          sized = algorithm_fits size known;
          addressed = address_sizes;
          some = omega (arith, odd);
          small = table_small (bit_or 1 plan.cap) _ size (omega (arith, odd)) address_sizes known;
        };
        unblocked = record { bits = refl; mask = refl };
        empty = refl;
        capacity = omega (arith, odd);
        odd = odd;
        addresses = λ p less. elim (Bool-cases (ltb log.data_end (2 ^ 32))) [
          | inl short ↦ inl (rw short refl, omega (arith, less, ltb→lt _ _ short))
          | inr long ↦ inr (rw long refl, omega (arith, less, in_file))
        ];
      }

-- `sparkey_hash_write` starts with a header for an empty table that may index the log: the sizes in it
-- are those of a table in memory, its capacity is odd and not below the planned one, addresses are
-- positions, and every position in the log fits one. The log has no blocks and less than 2 ^ 63 bytes,
-- fewer than 2 ^ 58 slots are planned, and the size of hashes is 4, 8 or for the library to choose.
pub start_header-IsStart :
    (log : LogHeader) (plan : Plan) (garbage : HashHeader) (hash_size : ℕ)
    → log.max_entries_per_block ≡ 0
    → log.data_end < 2 ^ 63
    → plan.cap < 2 ^ 58
    → IsAsked hash_size
    → (header : HashHeader) × (start_header log plan garbage hash_size ≡ done header)
      × IsStart log plan.cap header
unfolding start_header int_log2 int_log2_loop bitmask ◌>>=◌
start_header-IsStart log plan garbage hash_size no_blocks in_file small asked =
    let (size, chosen, known) =
      size_chosen hash_size plan.old_hash_size (bit_or 1 plan.cap) asked in
    (
      begun log plan garbage size known small,
      rw (no_blocks, start_header, chosen) refl,
      begun-IsStart log plan garbage size known small in_file,
    )
