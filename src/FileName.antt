-- ===== src/FileName.antt =====
-- The names of files that belong together: the end of src/util.c. A name is the list of its bytes, up to
-- the one that is 0.
pub mod Pair
use sparkey.Base.{
  ℕ, ◌-◌, List, [], ◌∷◌, ◌++◌, length, take, drop, Bool, true, false, ltb, Option, none, some,
  if◌then◌else◌,
}
use sparkey.LogIter.Chunks.{Order, below, same, above, memcmp}

pub differs : Order → Bool
differs same = false
differs below = true
differs above = true

-- `_create_filename` of a name that is not NULL; `malloc` is whether there is memory for it.
pub renamed : (malloc : Bool) → (from : List ℕ) → (to : ℕ) → (input : List ℕ) → Option (List ℕ)
unfolding differs
renamed malloc from to input =
    let l = length input in
    if ltb 10000 l
    then none
    else if ltb l (length from)
    then none
    else if differs (memcmp (drop (l - length from) input) from)
    then none
    else if malloc
    then some (take (l - 1) input ++ (to ∷ []))
    else none

pub create_filename :
    (malloc : Bool) → (from : List ℕ) → (to : ℕ) → Option (List ℕ) → Option (List ℕ)
unfolding renamed
create_filename malloc from to none = none
create_filename malloc from to (some input) = renamed malloc from to input

-- ".spi" and ".spl"
abbrev pub index_ending : List ℕ
index_ending = 46 ∷ 115 ∷ 112 ∷ 105 ∷ []

abbrev pub log_ending : List ℕ
log_ending = 46 ∷ 115 ∷ 112 ∷ 108 ∷ []

pub create_log_filename : (malloc : Bool) → Option (List ℕ) → Option (List ℕ)
unfolding create_filename
create_log_filename malloc index_filename = create_filename malloc index_ending 108 index_filename

pub create_index_filename : (malloc : Bool) → Option (List ℕ) → Option (List ℕ)
unfolding create_filename
create_index_filename malloc log_filename = create_filename malloc log_ending 105 log_filename
