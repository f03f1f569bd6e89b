-- ===== src/File/Overwrite.antt =====
-- How writes at an offset compose.
use sparkey.Base.{
  ℕ, zero, suc, ◌+◌, ◌≤◌, List, [], ◌∷◌, ◌++◌, length, drop, length-append, length-drop,
  drop-length-append, drop-drop, drop_nil, append-nil, append_assoc, ◌≡◌, refl, sym, ap, ◌∙◌, arith,
}
use sparkey.File.{File, overwrite, accept}

skip_front : (a c b : List ℕ) (n : ℕ) → n ≡ length a → overwrite (a ++ c) n b ≡ a ++ overwrite c 0 b
unfolding overwrite
skip_front [] c b zero h = refl
skip_front [] c b (suc n) h = absurd (omega arith)
skip_front (x ∷ a) c b zero h = absurd (omega arith)
skip_front (x ∷ a) c b (suc n) h = ap (λ l. x ∷ l) (skip_front a c b n (omega arith))

pub overwrite-overwrite :
    (c : List ℕ) (p : ℕ) (a b : List ℕ)
    → overwrite (overwrite c p a) (p + length a) b ≡ overwrite c p (a ++ b)
unfolding overwrite
overwrite-overwrite c zero a b =
    skip_front a (drop (length a) c) b (0 + length a) (omega arith)
    ∙ ap (λ l. a ++ (b ++ l)) (drop-drop (length a) (length b) c)
    ∙ sym (append_assoc a b (drop (length a + length b) c))
    ∙ ap (λ n. (a ++ b) ++ drop n c) (sym (length-append a b))
overwrite-overwrite [] (suc p) a b =
    let e : suc p + length a ≡ suc (p + length a) = omega arith in
    rw e (ap (λ l. 0 ∷ l) (overwrite-overwrite [] p a b))
overwrite-overwrite (x ∷ c) (suc p) a b =
    let e : suc p + length a ≡ suc (p + length a) = omega arith in
    rw e (ap (λ l. x ∷ l) (overwrite-overwrite c p a b))

-- A write at the end appends.
pub overwrite_end : (c b : List ℕ) (p : ℕ) → p ≡ length c → overwrite c p b ≡ c ++ b
unfolding overwrite
overwrite_end [] b zero h = ap (λ l. b ++ l) (sym (drop_nil (length b))) ∙ append-nil b
overwrite_end [] b (suc p) h = absurd (omega arith)
overwrite_end (x ∷ c) b zero h = absurd (omega arith)
overwrite_end (x ∷ c) b (suc p) h = ap (λ l. x ∷ l) (overwrite_end c b p (omega arith))

-- A write at the start replaces as many bytes as it has.
pub overwrite_start : (a c b : List ℕ) → length b ≡ length a → overwrite (a ++ c) 0 b ≡ b ++ c
unfolding overwrite
overwrite_start a c b h = ap (λ l. b ++ l) (drop-length-append a c (length b) h)

pub accept-accept : (f : File) (a b : List ℕ) → accept (accept f a) b ≡ accept f (a ++ b)
accept-accept f a b =
    let e : f.offset + length a + length b ≡ f.offset + length (a ++ b) =
      omega (arith, length-append a b) in
    rw (overwrite-overwrite, e)

-- A write of nothing inside the file changes nothing.
pub overwrite_nothing : (c : List ℕ) (p : ℕ) → p ≤ length c → overwrite c p [] ≡ c
unfolding overwrite
overwrite_nothing c zero h = refl
overwrite_nothing [] (suc p) h = absurd (omega arith)
overwrite_nothing (x ∷ c) (suc p) h = ap (λ l. x ∷ l) (overwrite_nothing c p (omega arith))

pub overwrite_reaches : (c : List ℕ) (p : ℕ) (b : List ℕ) → p + length b ≤ length (overwrite c p b)
unfolding overwrite
overwrite_reaches c zero b = omega (arith, length-append b (drop (length b) c))
overwrite_reaches [] (suc p) b = omega (arith, overwrite_reaches [] p b)
overwrite_reaches (x ∷ c) (suc p) b = omega (arith, overwrite_reaches c p b)

pub overwrite_keeps : (c : List ℕ) (p : ℕ) (b : List ℕ) → length c ≤ length (overwrite c p b)
unfolding overwrite
overwrite_keeps c zero b =
    omega (arith, length-append b (drop (length b) c), length-drop (length b) c)
overwrite_keeps [] (suc p) b = omega arith
overwrite_keeps (x ∷ c) (suc p) b = omega (arith, overwrite_keeps c p b)
