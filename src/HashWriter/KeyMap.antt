-- ===== src/HashWriter/KeyMap.antt =====
-- What the index of a log is meant to be: the address of the last put of each key that is not deleted.
use sparkey.Base.{
  ℕ, ◌+◌, ◌≤◌, ◌==◌, ==_refl, List, [], ◌∷◌, length, true, false, Option, none, some, if◌then◌else◌,
  ◌≡◌, refl, ◌∙◌, arith,
}
use sparkey.Entry.{Entry, put, delete, encode}
use sparkey.LogIter.Plain.{key_of, encode-pos}
use sparkey.HashTable.Implements.{KeyMap, assign}

abbrev pub address_of : Entry → ℕ → Option ℕ
address_of (put key value) p = some p
address_of (delete key) p = none

-- The entries from the position `p` on, one after another.
unfoldable pub indexed : List Entry → (p : ℕ) → KeyMap → KeyMap
indexed [] p m = m
indexed (e ∷ es) p m = indexed es (p + length (encode e)) (assign (key_of e) (address_of e p) m)

abbrev pub no_keys : KeyMap
no_keys key = none

-- How many puts there are.
abbrev pub grows : Entry → ℕ
grows (put key value) = 1
grows (delete key) = 0

unfoldable pub count_puts : List Entry → ℕ
count_puts [] = 0
count_puts (e ∷ es) = grows e + count_puts es

-- The key and the value of the put at each address.
unfoldable pub contents_from : List Entry → (p : ℕ) → ℕ → List ℕ × List ℕ
contents_from [] p q = ([], [])
contents_from (put key value ∷ es) p q =
    let rest = contents_from es (p + length (encode (put key value))) q in
    if p == q then (key, value) else rest
contents_from (delete key ∷ es) p q = contents_from es (p + length (encode (delete key))) q

-- `content` is right at the puts of the entries.
abbrev pub IsContent : (ℕ → List ℕ × List ℕ) → List Entry → ℕ → Type 0
IsContent content [] p = Unit {0}
IsContent content (put key value ∷ es) p =
    (content p ≡ (key, value)) × IsContent content es (p + length (encode (put key value)))
IsContent content (delete key ∷ es) p = IsContent content es (p + length (encode (delete key)))

agree-IsContent :
    (content : ℕ → List ℕ × List ℕ) (es : List Entry) (p : ℕ)
    → ((q : ℕ) → p ≤ q → content q ≡ contents_from es p q)
    → IsContent content es p
unfolding contents_from
agree-IsContent content [] p agree = tt
agree-IsContent content (put key value ∷ es) p agree =
    let behind = p + length (encode (put key value)) in
    let here : (p == p) ≡ true = ==_refl p in
    (
      agree p (omega arith) ∙ rw here refl,
      agree-IsContent content es behind λ q far.
          let apart : (p == q) ≡ false = ground (arith, far, encode-pos (put key value)) in
          agree q (omega (arith, far)) ∙ rw apart refl,
    )
agree-IsContent content (delete key ∷ es) p agree =
    agree-IsContent content es (p + length (encode (delete key)))
      (λ q far. agree q (omega (arith, far)))

pub contents_from-IsContent : (es : List Entry) (p : ℕ) → IsContent (contents_from es p) es p
contents_from-IsContent es p = agree-IsContent (contents_from es p) es p (λ q far. refl)
