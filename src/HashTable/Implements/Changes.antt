-- ===== src/HashTable/Implements/Changes.antt =====
-- The map of a hash table after the slots have changed for one key.
use sparkey.Base.{
  ℕ, ◌≤◌, ◌<◌, ◌==◌, ==→eq, ==_refl, Bool-cases, false, List, Option, none, some, ◌≡◌, ◌≢◌, refl,
  sym, ap, ◌∙◌, ◌⊎◌, inl, inr, arith,
}
use mathlib.Core.Path.{subst}
use sparkey.Exec.{done}
use sparkey.HashAlgorithm.{hash}
use sparkey.LogReader.{LogReader}
use sparkey.HashHeader.{HashHeader}
use sparkey.HashTable.Order.{Slots, update, update_at, update_apart}
use sparkey.HashTable.Holds.{Holds, IsPut, IsDistinct, update-IsDistinct}
use sparkey.HashTable.Without.{IsRemoved}
use sparkey.HashTable.Index.{IsPutAt, HoldsKey}
use sparkey.HashTable.Implements.{
  KeyMap, assign, assign_same, assign_other, Implements, some_injective, key_cases,
}

abbrev address_or : ℕ → Option ℕ → ℕ
address_or n none = n
address_or n (some p) = p

module _ (log : LogReader) (header : HashHeader) (f : Slots) (content : ℕ → List ℕ × List ℕ)
    (m : KeyMap) (v : Implements log header f content m) (key : List ℕ) where
  abbrev c : ℕ
  c = header.hash_capacity

  abbrev key_in : ℕ × ℕ → List ℕ
  key_in y = (content y.1).0

  -- An entry that the index may hold.
  abbrev pub IsEntry : ℕ × ℕ → Type 0
  IsEntry y =
      IsPutAt log y.1 (content y.1)
      × (hash header.hash_algorithm (key_in y) header.hash_seed ≡ done y.0)
      × (log.header.header_size ≤ y.1)

  -- The slots `g` hold the entries of `f` that have other keys, and where the map is to have an address
  -- for the key, an entry `x` with that address.
  module _ (a : Option ℕ) (g : Slots) (New : ℕ × ℕ → Type 0)
      (new : (y : ℕ × ℕ) → New y → IsEntry y × (key_in y ≡ key) × (a ≡ some y.1))
      (source : (s : ℕ)
        → s < c
        → 0 < (g s).1
        → ((q : ℕ) × (q < c) × (f q ≡ g s) × (key_in (g s) ≢ key)) ⊎ New (g s))
      (kept : (q : ℕ) → q < c → 0 < (f q).1 → key_in (f q) ≢ key → Holds c g (f q))
      (there : (p : ℕ) → a ≡ some p → (s : ℕ) × HoldsKey c g content key s × ((g s).1 ≡ p))
      (apart : IsDistinct c g) where
    is_entry : (s : ℕ) → s < c → 0 < (g s).1 → IsEntry (g s)
    is_entry s hs used = elim (source s hs used) [
      | inl (q, hq, e, other) ↦
          let taken : 0 < (f q).1 = omega (arith, used, ap (λ y. y.1) e) in
          let ix = v.index in
          subst IsEntry e (ix.stored q hq taken, ix.hashed q hq taken, ix.behind_header q hq taken)
      | inr is ↦ (new (g s) is).0
    ]

    changed-found :
        (k : List ℕ) (s : ℕ) → HoldsKey c g content k s → assign key a m k ≡ some (g s).1
    changed-found k s (hs, used, own) = elim (source s hs used) [
      | inl (q, hq, e, other) ↦
          let taken : 0 < (f q).1 = omega (arith, used, ap (λ y. y.1) e) in
          assign_other key k a m (λ same. other (own ∙ sym same))
          ∙ v.found k q (hq, taken, ap key_in e ∙ own)
          ∙ ap (λ y. some y.1) e
      | inr is ↦ let (entry, same, at) = new (g s) is in assign_same key k a m (sym same ∙ own) ∙ at
    ]

    changed-present :
        (k : List ℕ) (p : ℕ)
        → assign key a m k ≡ some p
        → (s : ℕ) × HoldsKey c g content k s × ((g s).1 ≡ p)
    changed-present k p e = elim (key_cases key k) [
      | inl same ↦
          let (s, (hs, used, own), at) = there p (sym (assign_same key k a m same) ∙ e) in
          (s, (hs, used, own ∙ same), at)
      | inr other ↦
          let (q, (hq, taken, own), at) = v.present k p (sym (assign_other key k a m other) ∙ e) in
          let (s, hs, here) = kept q hq taken (λ same. other (sym same ∙ own)) in
          (
            s,
            (hs, omega (arith, taken, ap (λ y. y.1) here), ap key_in here ∙ own),
            ap (λ y. y.1) here ∙ at,
          )
    ]

    changed-Implements : Implements log header g content (assign key a m)
    changed-Implements = record {
      index = record {
        unblocked = v.index.unblocked;
        stored = λ s hs used. (is_entry s hs used).0;
        hashed = λ s hs used. (is_entry s hs used).1;
        behind_header = λ s hs used. (is_entry s hs used).2;
      };
      distinct = apart;
      found = changed-found;
      present = changed-present;
    }

  no_address : (p : ℕ) → ◌≡◌ {A = Option ℕ} none (some p) → ⊥
  no_address p e = omega (arith, ap (address_or 0) e, ap (address_or 1) e)

  -- The slot that holds the key, if one does, is the only one.
  only_slot : (s q : ℕ) → HoldsKey c f content key s → HoldsKey c f content key q → s ≡ q
  only_slot s q hs hq =
      v.distinct s q hs.0 hq.0 hs.1
        (some_injective (f s).1 (f q).1 (sym (v.found key s hs) ∙ v.found key q hq))

  module _ (x : ℕ × ℕ) (entry : IsEntry x) (own : key_in x ≡ key) (some_address : 0 < x.1) where
    -- The key is new, and its entry is put.
    pub put-Implements :
        (g : Slots)
        → ((s : ℕ) → HoldsKey c f content key s → ⊥)
        → IsPut c f g x
        → Implements log header g content (assign key (some x.1) m)
    put-Implements g absent put =
        changed-Implements (some x.1) g (λ y. y ≡ x)
          (λ y e.
            subst (λ z. IsEntry z × (key_in z ≡ key) × (◌≡◌ {A = Option ℕ} (some x.1) (some z.1)))
              (sym e) (entry, own, refl))
          (λ s hs used. elim (put.only (g s) used (s, hs, refl)) [
            | inl (q, hq, e) ↦ inl (
              q,
              hq,
              e,
              λ same. absent q (hq, omega (arith, used, ap (λ y. y.1) e), ap key_in e ∙ same),
            )
            | inr e ↦ inr e
          ])
          (λ q hq used other. put.kept (f q) used (q, hq, refl))
          (λ p e.
            let (s, hs, is) = put.new in
            let at = ap (λ y. y.1) is in
            (
              s,
              (hs, omega (arith, some_address, at), ap key_in is ∙ own),
              at ∙ some_injective x.1 p e,
            ))
          (put.distinct v.distinct (λ s hs e.
            absent s (hs, omega (arith, some_address, e), ap (λ p. (content p).0) e ∙ own)))

    module _ (s0 : ℕ) (holds : HoldsKey c f content key s0) where
      not_elsewhere : (q : ℕ) → (s0 == q) ≡ false → HoldsKey c f content key q → ⊥
      not_elsewhere q off hq = ground (arith, off, only_slot s0 q holds hq)

      -- The entry takes the slot of the one that has the key.
      pub update-Implements :
          Implements log header (update f s0 x) content (assign key (some x.1) m)
      update-Implements =
          changed-Implements (some x.1) (update f s0 x) (λ y. y ≡ x)
            (λ y e.
              subst (λ z. IsEntry z × (key_in z ≡ key) × (◌≡◌ {A = Option ℕ} (some x.1) (some z.1)))
                (sym e) (entry, own, refl))
            (λ s hs used. elim (Bool-cases (s0 == s)) [
              | inl here ↦ inr (update_at f s0 x s here)
              | inr off ↦
                  let e = sym (update_apart f s0 x s off) in
                  inl (
                    s,
                    hs,
                    e,
                    λ same.
                        not_elsewhere s off
                          (hs, omega (arith, used, ap (λ y. y.1) e), ap key_in e ∙ same),
                  )
            ])
            (λ q hq used other. elim (Bool-cases (s0 == q)) [
              | inl here ↦ absurd (other (ap (λ s. key_in (f s)) (sym (==→eq s0 q here)) ∙ holds.2))
              | inr off ↦ (q, hq, update_apart f s0 x q off)
            ])
            (λ p e.
              let is = update_at f s0 x s0 (==_refl s0) in
              let at = ap (λ y. y.1) is in
              (
                s0,
                (holds.0, omega (arith, some_address, at), ap key_in is ∙ own),
                at ∙ some_injective x.1 p e,
              ))
            (update-IsDistinct c f s0 x holds.0 some_address v.distinct (λ q hq off e.
              not_elsewhere q off
                (hq, omega (arith, some_address, e), ap (λ p. (content p).0) e ∙ own)))

  -- The entry that has the key is removed.
  pub removed-Implements :
      (s0 : ℕ) (g : Slots)
      → HoldsKey c f content key s0
      → IsRemoved c f g s0
      → Implements log header g content (assign key none m)
  removed-Implements s0 g holds r =
      changed-Implements none g (λ y. ⊥) (λ y e. absurd e)
        (λ s hs used.
          let (q, hq, off, e) = r.only (g s) used (s, hs, refl) in
          inl (
            q,
            hq,
            e,
            λ same. ground (
              arith,
              off,
              only_slot s0 q holds (hq, omega (arith, used, ap (λ y. y.1) e), ap key_in e ∙ same),
            ),
          ))
        (λ q hq used other. elim (Bool-cases (s0 == q)) [
          | inl here ↦ absurd (other (ap (λ s. key_in (f s)) (sym (==→eq s0 q here)) ∙ holds.2))
          | inr off ↦ r.kept (f q) used (q, hq, off, refl)
        ])
        (λ p e. absurd (no_address p e))
        (r.distinct (λ a b ha hb off_a off_b used e. v.distinct a b ha hb used e))

  -- No entry has the key.
  pub absent-Implements :
      ((s : ℕ) → HoldsKey c f content key s → ⊥)
      → Implements log header f content (assign key none m)
  absent-Implements absent =
      changed-Implements none f (λ y. ⊥) (λ y e. absurd e)
        (λ s hs used. inl (s, hs, refl, λ same. absent s (hs, used, same)))
        (λ q hq used other. (q, hq, refl)) (λ p e. absurd (no_address p e)) v.distinct
