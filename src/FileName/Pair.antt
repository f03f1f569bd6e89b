-- ===== src/FileName/Pair.antt =====
-- The name of a log and the name of its index give each other, and no other name gives one.
use sparkey.Base.{
  ℕ, ◌-◌, ◌≤◌, ◌<◌, ltb, ltb→lt, ltb→le, le→ltb, List, [], ◌∷◌, ◌++◌, length, take, drop,
  length-append, length-drop, drop-length-append, take-append-drop, take-append_past, append_assoc,
  Bool-cases, true, false, none, some, ◌≡◌, ◌≢◌, refl, sym, ap, ◌∙◌, ◌⊎◌, inl, inr, arith,
}
use mathlib.Core.Bool.{false≢true}
use sparkey.LogIter.Chunks.{Order, below, same, above, memcmp}
use sparkey.LogIter.Chunks.Compare.{IsSame, memcmp_self, memcmp-IsSame}
use sparkey.FileName.{
  differs, renamed, create_filename, index_ending, log_ending, create_log_filename,
  create_index_filename,
}

-- ".sp" and a letter.
abbrev ending : ℕ → List ℕ
ending x = 46 ∷ 115 ∷ 112 ∷ x ∷ []

renamed-ending :
    (base : List ℕ) (x to : ℕ)
    → length (base ++ ending x) ≤ 10000
    → renamed true (ending x) to (base ++ ending x) ≡ some (base ++ ending to)
unfolding renamed differs
renamed-ending base x to short =
    let l = length-append base (ending x) in
    let not_long : ltb 10000 (length (base ++ ending x)) ≡ false = le→ltb _ _ short in
    let not_short : ltb (length (base ++ ending x)) 4 ≡ false = le→ltb _ _ (omega (arith, l)) in
    let end : drop (length (base ++ ending x) - 4) (base ++ ending x) ≡ ending x =
      drop-length-append base (ending x) _ (omega (arith, l)) in
    let start : take (length (base ++ ending x) - 1) (base ++ ending x)
        ≡ base ++ take 3 (ending x) =
      take-append_past base (ending x) 3 _ (omega (arith, l)) in
    rw (not_long, not_short, end, memcmp_self (ending x), start)
      (ap some (append_assoc base (take 3 (ending x)) (to ∷ [])))

differs-IsSame : (o : Order) → differs o ≡ false → IsSame o
unfolding differs
differs-IsSame same e = tt
differs-IsSame below e = false≢true (sym e)
differs-IsSame above e = false≢true (sym e)

-- The name is too long, or ends in something else.
abbrev pub IsOther : (ending name : List ℕ) → Type 0
IsOther ending name = (10000 < length name) ⊎ ((base : List ℕ) → name ≢ base ++ ending)

last_four :
    (base : List ℕ) (x : ℕ) → drop (length (base ++ ending x) - 4) (base ++ ending x) ≡ ending x
last_four base x =
    drop-length-append base (ending x) _ (omega (arith, length-append base (ending x)))

-- A name with the ending is not shorter than it, and does not differ from it at its end.
too_short : (x : ℕ) (name base : List ℕ) → ltb (length name) 4 ≡ true → name ≢ base ++ ending x
too_short x name base short e =
    absurd (omega (arith, ltb→lt _ _ short, ap length e, length-append base (ending x)))

differs_not :
    (x : ℕ) (name base : List ℕ)
    → differs (memcmp (drop (length name - 4) name) (ending x)) ≡ true
    → name ≢ base ++ ending x
unfolding differs
differs_not x name base apart e =
    let at_end = λ (n : List ℕ). differs (memcmp (drop (length n - 4) n) (ending x)) in
    let same_end : at_end (base ++ ending x) ≡ false =
      rw (last_four base x, memcmp_self (ending x)) refl in
    false≢true (sym same_end ∙ sym (ap at_end e) ∙ apart)

renamed-cases :
    (x to : ℕ) (name : List ℕ)
    → ((base : List ℕ) × (name ≡ base ++ ending x) × (length name ≤ 10000))
      ⊎ (IsOther (ending x) name × (renamed true (ending x) to name ≡ none))
unfolding renamed
renamed-cases x to name =
    let l = length name in
    let base = take (l - 4) name in
    elim (Bool-cases (ltb 10000 l)) [
      | inl long ↦ inr (inl (ltb→lt _ _ long), rw long refl)
      | inr not_long ↦ elim (Bool-cases (ltb l 4)) [
        | inl short ↦ inr (inr (λ b. too_short x name b short), rw (not_long, short) refl)
        | inr not_short ↦ elim (Bool-cases (differs (memcmp (drop (l - 4) name) (ending x)))) [
          | inl apart ↦
              inr (inr (λ b. differs_not x name b apart), rw (not_long, not_short, apart) refl)
          | inr matches ↦
              let long_enough : 4 ≤ l = ltb→le _ _ not_short in
              let end : drop (l - 4) name ≡ ending x =
                memcmp-IsSame (drop (l - 4) name) (ending x)
                  (omega (arith, length-drop (l - 4) name, long_enough))
                  (differs-IsSame _ matches) in
              inl (
                base,
                sym (take-append-drop (l - 4) name) ∙ ap (λ e. base ++ e) end,
                ltb→le _ _ not_long,
              )
        ]
      ]
    ]

-- A name of at most 10000 bytes that ends in ".spi" gives the name with ".spl" in its place, and that
-- one gives the first name again. A name that is longer, or does not end so, gives none. There is memory
-- for the names.
pub create_log_filename-create_index_filename :
    (name : List ℕ)
    → ((base : List ℕ) × (name ≡ base ++ index_ending)
        × (length name ≤ 10000)
        × (create_log_filename true (some name) ≡ some (base ++ log_ending))
        × (create_index_filename true (some (base ++ log_ending)) ≡ some name))
      ⊎ (IsOther index_ending name × (create_log_filename true (some name) ≡ none))
unfolding create_log_filename create_index_filename create_filename
create_log_filename-create_index_filename name = elim (renamed-cases 105 108 name) [
  | inr (other, e) ↦ inr (other, e)
  | inl (base, e, short) ↦
      let same_length : length (base ++ log_ending) ≡ length name =
        omega
          (arith, ap length e, length-append base index_ending, length-append base log_ending) in
      inl (
        base,
        e,
        short,
        rw e (renamed-ending base 105 108 (omega (arith, short, ap length e))),
        renamed-ending base 108 105 (omega (arith, short, same_length)) ∙ ap some (sym e),
      )
]
