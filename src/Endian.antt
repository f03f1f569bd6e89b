-- ===== src/Endian.antt =====
-- src/endiantools.c: numbers as bytes, lowest first, in memory. A block of memory is the list of its
-- bytes, and an access past its end is a fault.
pub mod Memory
pub mod RoundTrip
use sparkey.Base.{
  ℕ, ◌+◌, ◌*◌, ◌/◌, ◌^◌, bit_and, List, [], ◌∷◌, ◌++◌, length, take, drop, leb, if◌then◌else◌,
}
use sparkey.Exec.{Outcome, done, thrown, fault, out_of_bounds}

-- The bytes that `write_little_endian32` and `write_little_endian64` store at `buf`.
pub little_endian32 : ℕ → List ℕ
little_endian32 value =
    bit_and (value / 2 ^ 0) 0xff
    ∷ bit_and (value / 2 ^ 8) 0xff
    ∷ bit_and (value / 2 ^ 16) 0xff
    ∷ bit_and (value / 2 ^ 24) 0xff
    ∷ []

pub little_endian64 : ℕ → List ℕ
little_endian64 value =
    bit_and (value / 2 ^ 0) 0xff
    ∷ bit_and (value / 2 ^ 8) 0xff
    ∷ bit_and (value / 2 ^ 16) 0xff
    ∷ bit_and (value / 2 ^ 24) 0xff
    ∷ bit_and (value / 2 ^ 32) 0xff
    ∷ bit_and (value / 2 ^ 40) 0xff
    ∷ bit_and (value / 2 ^ 48) 0xff
    ∷ bit_and (value / 2 ^ 56) 0xff
    ∷ []

-- A load of a little-endian word.
unfoldable pub from_little_endian : List ℕ → ℕ
from_little_endian [] = 0
from_little_endian (b ∷ bs) = b + 256 * from_little_endian bs

-- `n` bytes from `pos` on, and bytes stored from `pos` on.
unfoldable pub peek : List ℕ → ℕ → ℕ → Outcome (List ℕ)
peek memory pos n =
    if leb (pos + n) (length memory) then done (take n (drop pos memory)) else fault out_of_bounds

pub poke : List ℕ → ℕ → List ℕ → Outcome (List ℕ)
poke memory pos bytes =
    if leb (pos + length bytes) (length memory)
    then done (take pos memory ++ (bytes ++ drop (pos + length bytes) memory))
    else fault out_of_bounds

abbrev pub map_done : {A B : Type 0} → (A → B) → Outcome A → Outcome B
map_done f (done a) = done (f a)
map_done f (thrown c) = thrown c
map_done f (fault x) = fault x

unfoldable pub read_little_endian32 : List ℕ → ℕ → Outcome ℕ
read_little_endian32 array pos = map_done from_little_endian (peek array pos 4)

unfoldable pub read_little_endian64 : List ℕ → ℕ → Outcome ℕ
read_little_endian64 array pos = map_done from_little_endian (peek array pos 8)
