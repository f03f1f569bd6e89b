-- ===== src/Endian/Memory.antt =====
-- Loads after stores: at the same place, and at a place apart.
use sparkey.Base.{
  ℕ, ◌+◌, ◌-◌, ◌≤◌, ◌<◌, List, ◌++◌, length, take, drop, length-append, length-take, length-drop,
  take-length-append, drop-length-append, take-append_le, drop-append_le, take-append-drop,
  drop-drop, ◌≡◌, refl, sym, ap, ◌∙◌, ◌⊎◌, inl, inr, arith,
}
use sparkey.Exec.{done, fault, out_of_bounds}
use sparkey.Endian.{peek, poke}

-- The memory after a store of `bytes` at `pos` that fits.
abbrev pub poked : List ℕ → ℕ → List ℕ → List ℕ
poked m pos bytes = take pos m ++ (bytes ++ drop (pos + length bytes) m)

module _ (m : List ℕ) (pos : ℕ) (bytes : List ℕ) (fits : pos + length bytes ≤ length m) where
  pub poke_fits : poke m pos bytes ≡ done (poked m pos bytes)
  unfolding poke
  poke_fits = ground arith

  pub length-poked : length (poked m pos bytes) ≡ length m
  length-poked =
      rw (length-append, length-append, length-take pos m (omega arith), length-drop) (omega arith)

  pub drop-poked : drop pos (poked m pos bytes) ≡ bytes ++ drop (pos + length bytes) m
  drop-poked = drop-length-append (take pos m) _ pos (sym (length-take pos m (omega arith)))

  pub peek-poked : peek (poked m pos bytes) pos (length bytes) ≡ done bytes
  unfolding peek
  peek-poked = ground (
    arith,
    length-poked,
    ap (take (length bytes)) drop-poked,
    take-length-append bytes (drop (pos + length bytes) m) (length bytes) refl,
  )

  drop-poked_after : (k : ℕ) → pos + length bytes ≤ k → drop k (poked m pos bytes) ≡ drop k m
  drop-poked_after k h =
      let e : pos + (length bytes + (k - (pos + length bytes))) ≡ k = omega arith in
      let f : pos + length bytes + (k - (pos + length bytes)) ≡ k = omega arith in
      rw (← e) (
        sym (drop-drop pos _ (poked m pos bytes))
        ∙ ap (drop (length bytes + (k - (pos + length bytes)))) drop-poked
        ∙ sym (drop-drop (length bytes) _ (bytes ++ drop (pos + length bytes) m))
        ∙ ap (drop (k - (pos + length bytes)))
            (drop-length-append bytes (drop (pos + length bytes) m) (length bytes) refl)
        ∙ drop-drop (pos + length bytes) _ m
        ∙ ap (λ j. drop j m) (f ∙ sym e))

  peek-poked_after : (k n : ℕ) → pos + length bytes ≤ k → peek (poked m pos bytes) k n ≡ peek m k n
  unfolding peek
  peek-poked_after k n h = rw (length-poked, drop-poked_after k h)

  take-drop-poked_before :
      (k n : ℕ) → k + n ≤ pos → take n (drop k (poked m pos bytes)) ≡ take n (drop k m)
  take-drop-poked_before k n h =
      let l = length-take pos m (omega arith) in
      ap (take n) (drop-append_le k (take pos m) _ (omega arith))
      ∙ take-append_le n (drop k (take pos m)) _ (omega (arith, length-drop k (take pos m)))
      ∙ sym (
          take-append_le n (drop k (take pos m)) (drop pos m)
            (omega (arith, length-drop k (take pos m))))
      ∙ ap (take n) (sym (drop-append_le k (take pos m) (drop pos m) (omega arith)))
      ∙ ap (λ l. take n (drop k l)) (take-append-drop pos m)

  pub peek-poked_apart :
      (k n : ℕ)
      → (k + n ≤ pos) ⊎ (pos + length bytes ≤ k)
      → peek (poked m pos bytes) k n ≡ peek m k n
  unfolding peek
  peek-poked_apart k n (inl h) = rw (length-poked, take-drop-poked_before k n h)
  peek-poked_apart k n (inr h) = rw (length-poked, drop-poked_after k h)

pub peek_inside :
    (memory : List ℕ) (pos n : ℕ)
    → pos + n ≤ length memory
    → peek memory pos n ≡ done (take n (drop pos memory))
unfolding peek
peek_inside memory pos n h = ground arith

pub peek_outside :
    (memory : List ℕ) (pos n : ℕ)
    → length memory < pos + n
    → peek memory pos n ≡ fault out_of_bounds
unfolding peek
peek_outside memory pos n h = ground arith
