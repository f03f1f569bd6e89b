-- ===== src/HashTable/Represents.antt =====
-- A hash table in memory, as slots; and a store into one of them.
use sparkey.Base.{
  ltb, ltb→lt, ℕ, suc, ◌+◌, ◌*◌, ◌^◌, ◌≤◌, ◌<◌, ◌==◌, ==→eq, List, length, Bool-cases, false, ◌≡◌,
  ◌∙◌, ◌⊎◌, inl, inr, arith,
}
use mathlib.Core.Path.{subst}
use native.Mathlib.Nat.{le-mul_of_pos_right, mul-le-mul_right}
use sparkey.Exec.{done}
use sparkey.HashAlgorithm.{HashAlgorithm, murmurhash32, murmurhash64}
use sparkey.HashHeader.{HashHeader}
use sparkey.HashTable.{read_slot, write_slot, slot_size}
use sparkey.HashTable.Slot.{hash_len, HashFits, AddressFits, write_slot-read_slot}
use sparkey.HashTable.Order.{Slots, update, update_at, update_apart}

-- The hash and the address fit the sizes in the header.
abbrev pub SlotFits : HashHeader → ℕ × ℕ → Type 0
SlotFits header (h, position) =
    HashFits header.hash_algorithm h × AddressFits header.address_size position

-- The memory `t` is a table of the shape that the header says, and `f` is what its slots read as.
pub record Represents (header : HashHeader) (t : List ℕ) (f : Slots) : Type 0 where
  pub sized : header.hash_size ≡ hash_len header.hash_algorithm
  pub some : 0 < header.hash_capacity
  pub small : header.hash_capacity * slot_size header < 2 ^ 63
  pub len : length t ≡ header.hash_capacity * slot_size header
  pub reads :
      (s : ℕ) → s < header.hash_capacity → read_slot header t (s * slot_size header) ≡ done (f s)
  pub fits : (s : ℕ) → s < header.hash_capacity → SlotFits header (f s)

hash_len_pos : (a : HashAlgorithm) → 0 < hash_len a
hash_len_pos murmurhash32 = omega arith
hash_len_pos murmurhash64 = omega arith

pub capacity_small :
    (header : HashHeader) (t : List ℕ) (f : Slots)
    → Represents header t f
    → header.hash_capacity < 2 ^ 63
capacity_small header t f r =
    let whole : header.hash_capacity ≤ header.hash_capacity * slot_size header =
      le-mul_of_pos_right header.hash_capacity
        (omega (arith, r.sized, hash_len_pos header.hash_algorithm)) in
    omega (arith, whole, r.small)

module _ (header : HashHeader) (t : List ℕ) (f : Slots) (r : Represents header t f) where
  pub slot_inside :
      (s : ℕ) → s < header.hash_capacity → s * slot_size header + slot_size header ≤ length t
  slot_inside s less =
      let last : suc s * slot_size header ≤ header.hash_capacity * slot_size header =
        mul-le-mul_right (slot_size header) (omega arith) in
      omega (arith, last, r.len)

  slots_apart :
      (s q : ℕ)
      → (s == q) ≡ false
      → (q * slot_size header + slot_size header ≤ s * slot_size header)
        ⊎ (s * slot_size header + slot_size header ≤ q * slot_size header)
  slots_apart s q apart = elim (Bool-cases (ltb s q)) [
    | inl below ↦
        let le : suc s * slot_size header ≤ q * slot_size header =
          mul-le-mul_right (slot_size header) (ltb→lt s q below) in
        inr (omega (arith, le))
    | inr above ↦
        let le : suc q * slot_size header ≤ s * slot_size header =
          mul-le-mul_right (slot_size header) (ground arith) in
        inl (omega (arith, le))
  ]

  -- A store into a slot of the table succeeds, and updates that slot and no other.
  pub write_slot-update :
      (s : ℕ) (v : ℕ × ℕ)
      → s < header.hash_capacity
      → SlotFits header v
      → (u : List ℕ) × (write_slot header (s * slot_size header) v.0 v.1 t ≡ done u)
        × Represents header u (update f s v)
  write_slot-update s v less fit =
      let (u, wrote, len, here, apart) =
        write_slot-read_slot header t (s * slot_size header) v.0 v.1 r.sized fit.0 fit.1
          (slot_inside s less) in
      (
        u,
        wrote,
        record {
          sized = r.sized;
          some = r.some;
          small = r.small;
          len = len ∙ r.len;
          reads = λ q hq. elim (Bool-cases (s == q)) [
            | inl e ↦
                rw (update_at f s v q e) (
                  subst (λ k. read_slot header u (k * slot_size header) ≡ done v) (==→eq s q e)
                    here)
            | inr e ↦ rw (update_apart f s v q e) (apart _ (slots_apart s q e) ∙ r.reads q hq)
          ];
          fits = λ q hq. elim (Bool-cases (s == q)) [
            | inl e ↦ rw (update_at f s v q e) fit
            | inr e ↦ rw (update_apart f s v q e) (r.fits q hq)
          ];
        },
      )

-- The count of entries plays no part.
module _ (header : HashHeader) (m : ℕ) (t : List ℕ) (f : Slots) where
  abbrev counting : HashHeader
  counting = record header { num_entries = m }

  pub count-Represents : Represents header t f → Represents counting t f
  unfolding read_slot
  count-Represents r = record {
    sized = r.sized;
    some = r.some;
    small = r.small;
    len = r.len;
    reads = r.reads;
    fits = r.fits;
  }

  pub uncount-Represents : Represents counting t f → Represents header t f
  unfolding read_slot
  uncount-Represents r = record {
    sized = r.sized;
    some = r.some;
    small = r.small;
    len = r.len;
    reads = r.reads;
    fits = r.fits;
  }
