-- ===== src/HashWriter/Asks.antt =====
-- What a put or a delete learns of the entries with its hash, from the log.
use sparkey.Base.{ℕ, ◌+◌, ◌%◌, ◌<◌, List, Option, none, ◌≡◌, ◌⊎◌}
use sparkey.Exec.{Outcome, done, thrown, fault}
use sparkey.Compress.{Codecs}
use sparkey.LogReader.{LogReader}
use sparkey.LogIter.{LogIter}
use sparkey.HashHeader.{HashHeader}
use sparkey.HashTable.Ring.{behind, displacement}
use sparkey.HashTable.Order.{Slots, IsOrdered}
use sparkey.HashTable.Search.{IsAhead, starts-IsAhead, ends_search, step_on}
use sparkey.HashWriter.{same_key}
use sparkey.HashWriter.SameKey.{with_iters, same_key-ReadsLog}

abbrev pub IsFailed : {A : Type 0} → Outcome A → Type 0
IsFailed (done a) = ⊥
IsFailed (thrown c) = Unit {0}
IsFailed (fault x) = Unit {0}

-- A used slot that has the hash.
abbrev pub Candidate : HashHeader → Slots → (h s : ℕ) → Type 0
Candidate header f h s = (s < header.hash_capacity) × (0 < (f s).1) × ((f s).0 ≡ h)

-- What the comparison of keys answers.
abbrev pub Found : Type 0
Found = Outcome (Option (ℕ × ℕ))

-- The comparison with the entry in a slot that has the hash `h` keeps `P` of the iterators, and `Q`
-- holds of the slot and the answer.
pub record Asks (codecs : Codecs) (log : LogReader) (header : HashHeader) (t : List ℕ) (f : Slots)
    (h : ℕ) (P : LogIter → LogIter → Type 0) (Q : ℕ → Found → Type 0) : Type 0 where
  pub answers :
      (slot : ℕ)
      → slot < header.hash_capacity
      → 0 < (f slot).1
      → (f slot).0 ≡ h
      → (i j : LogIter) → P i j
      → (a : Found) × (i' : LogIter) × (j' : LogIter) × (same_key codecs log
            (f slot).1
            (with_iters header t i j)
          ≡ (a, with_iters header t i' j'))
        × P i' j'
        × Q slot a

-- What a failed comparison makes of the put or the delete.
abbrev pub as_failure : Found → Outcome (Unit {0})
as_failure (done found) = done tt
as_failure (thrown c) = thrown c
as_failure (fault x) = fault x

module _ (codecs : Codecs) (log : LogReader) (header : HashHeader) (t : List ℕ) where
  -- The comparison of the current entry with the one at an address, and how it leaves the iterators.
  abbrev pub Compares : (position : ℕ) → (i j : LogIter) → Found → (i' j' : LogIter) → Type 0
  Compares position i j a i' j' =
      same_key codecs log position (with_iters header t i j) ≡ (a, with_iters header t i' j')

  -- Comparisons lead from the iterators `i0` and `j0` to these.
  pub data Reached (i0 j0 : LogIter) : LogIter → LogIter → Type 0 where
    at_first : Reached i0 j0 i0 j0
    compared :
        {i j i' j' : LogIter} (position : ℕ) (a : Found)
        → Reached i0 j0 i j
        → Compares position i j a i' j'
        → Reached i0 j0 i' j'

  -- A comparison on the way from `i0` and `j0` gave this answer for the entry in a slot.
  abbrev pub Answered : Slots → (i0 j0 : LogIter) → (slot : ℕ) → Found → Type 0
  Answered f i0 j0 slot a =
      (i : LogIter) × (j : LogIter) × (i' : LogIter) × (j' : LogIter) × Reached i0 j0 i j
      × Compares (f slot).1 i j a i' j'

  -- Of every log, the comparisons that were made are known.
  pub Asks-Answered :
      (f : Slots) (h : ℕ) (i0 j0 : LogIter)
      → Asks codecs log header t f h (Reached i0 j0) (Answered f i0 j0)
  Asks-Answered f h i0 j0 = record {
    answers = λ slot less used same i j way.
        let (a, i', j', e) = same_key-ReadsLog header t codecs log (f slot).1 i j in
        (a, i', j', e, compared (f slot).1 a way e, (i, j, i', j', way, e));
  }

module _ (header : HashHeader) (f : Slots) (o : IsOrdered header.hash_capacity f) (h : ℕ)
    (Q : ℕ → Found → Type 0) where
  -- After `d` steps the loop is at the slot: of the slots with the hash, those behind it answered that
  -- the keys differ.
  abbrev pub Pending : (slot d : ℕ) → Type 0
  Pending =
      IsAhead header.hash_capacity f o (Candidate header f h) (λ s. Q s (done none))
        (λ s k. (k.0, k.1))

  pub starts-Pending : Pending (h % header.hash_capacity) 0
  starts-Pending =
      starts-IsAhead header.hash_capacity f o (Candidate header f h) (λ s. Q s (done none))
        (λ s k. (k.0, k.1)) h (λ s k. k.2)

  pub none_same :
      (slot d : ℕ)
      → slot < header.hash_capacity
      → Pending slot d
      → ((f slot).1 ≡ 0) ⊎ (displacement header.hash_capacity slot (f slot).0 < d)
      → (s : ℕ) → Candidate header f h s
      → Q s (done none)
  none_same =
      ends_search header.hash_capacity f o (Candidate header f h) (λ s. Q s (done none))
        (λ s k. (k.0, k.1))

  pub pend_on :
      (slot d : ℕ)
      → slot < header.hash_capacity
      → Pending slot d
      → (Candidate header f h slot → Q slot (done none))
      → Pending (behind header.hash_capacity slot) (d + 1)
  pend_on =
      step_on header.hash_capacity f o (Candidate header f h) (λ s. Q s (done none))
        (λ s k. (k.0, k.1))
