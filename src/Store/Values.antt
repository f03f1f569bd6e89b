-- ===== src/Store/Values.antt =====
-- What a client means to find in a log: the value of the last put of each key that is not deleted.
use sparkey.Base.{ℕ, List, [], ◌∷◌, Option, none, some, ◌≡◌, refl, sym, ap, ◌∙◌, inl, inr}
use sparkey.Entry.{Entry, put, delete}
use sparkey.LogIter.Plain.{key_of}
use sparkey.HashTable.Implements.{KeyMap, assign, assign_same, assign_other, key_cases}
use sparkey.HashWriter.KeyMap.{indexed, IsContent}

abbrev pub ValueMap : Type 0
ValueMap = List ℕ → Option (List ℕ)

abbrev pub no_values : ValueMap
no_values key = none

abbrev pub value_after : Entry → Option (List ℕ)
value_after (put key value) = some value
value_after (delete key) = none

-- The values after the entries, one after another.
unfoldable pub last_value : List Entry → ValueMap → ValueMap
last_value [] m = m
last_value (e ∷ es) m = last_value es (assign (key_of e) (value_after e) m)

-- The value of the put at an address.
abbrev pub value_at : (ℕ → List ℕ × List ℕ) → Option ℕ → Option (List ℕ)
value_at content none = none
value_at content (some p) = some (content p).1

module _ (content : ℕ → List ℕ × List ℕ) where
  assign-value_at :
      (key : List ℕ) (a : Option ℕ) (w : Option (List ℕ)) (m : KeyMap) (n : ValueMap)
      → w ≡ value_at content a
      → ((k : List ℕ) → n k ≡ value_at content (m k))
      → (k : List ℕ) → assign key w n k ≡ value_at content (assign key a m k)
  assign-value_at key a w m n e agree k = elim (key_cases key k) [
    | inl same ↦
        assign_same key k w n same ∙ e ∙ ap (value_at content) (sym (assign_same key k a m same))
    | inr other ↦
        assign_other key k w n other
        ∙ agree k
        ∙ ap (value_at content) (sym (assign_other key k a m other))
  ]

  -- The values are those of the puts at the addresses.
  pub values-indexed :
      (es : List Entry) (p : ℕ) (m : KeyMap) (n : ValueMap)
      → IsContent content es p
      → ((k : List ℕ) → n k ≡ value_at content (m k))
      → (k : List ℕ) → last_value es n k ≡ value_at content (indexed es p m k)
  unfolding last_value indexed
  values-indexed [] p m n own agree k = agree k
  values-indexed (put key value ∷ es) p m n own agree k =
      values-indexed es _ _ _ own.1
        (assign-value_at key (some p) (some value) m n (ap (λ x. some x.1) (sym own.0)) agree) k
  values-indexed (delete key ∷ es) p m n own agree k =
      values-indexed es _ _ _ own (assign-value_at key none none m n refl agree) k
