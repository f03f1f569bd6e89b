-- ===== src/Murmur.antt =====
-- src/MurmurHash3.c: the two variants that sparkey uses. A length is handed over as a uint64_t and
-- taken as an `int`.
mod Tests
pub mod Bounds
use sparkey.Base.{
  ℕ, zero, suc, ◌+◌, ◌*◌, ◌-◌, ◌/◌, ◌%◌, ◌^◌, bit_or, bit_xor, List, [], ◌∷◌, length, take, drop,
  u32, u64, add64, ltb, if◌then◌else◌,
}
use sparkey.Exec.{Outcome, done, thrown, fault, out_of_range}
use sparkey.Endian.{map_done, read_little_endian32, read_little_endian64}

-- A length as the `int` of a call: its low 32 bits. With the highest of them set it is negative, and
-- of nearly all of these the code makes places in front of the key; each of them is a fault here.
as_int : {A : Type 0} → (len : ℕ) → (ℕ → Outcome A) → Outcome A
as_int len k = if ltb (u32 len) (2 ^ 31) then k (u32 len) else fault out_of_range

abbrev mul32 : ℕ → ℕ → ℕ
mul32 a b = u32 (a * b)

abbrev mul64 : ℕ → ℕ → ℕ
mul64 a b = u64 (a * b)

rotl32 : ℕ → ℕ → ℕ
rotl32 x r = bit_or (u32 (x * 2 ^ r)) (x / 2 ^ (32 - r))

rotl64 : ℕ → ℕ → ℕ
rotl64 x r = bit_or (u64 (x * 2 ^ r)) (x / 2 ^ (64 - r))

fmix32 : ℕ → ℕ
fmix32 h =
    let a = bit_xor h (h / 2 ^ 16) in
    let b = mul32 a 0x85ebca6b in
    let c = bit_xor b (b / 2 ^ 13) in let d = mul32 c 0xc2b2ae35 in bit_xor d (d / 2 ^ 16)

fmix64 : ℕ → ℕ
fmix64 k =
    let a = bit_xor k (k / 2 ^ 33) in
    let b = mul64 a 0xff51afd7ed558ccd in
    let c = bit_xor b (b / 2 ^ 33) in let d = mul64 c 0xc4ceb9fe1a85ec53 in bit_xor d (d / 2 ^ 33)

-- The scrambling of a block in `MurmurHash3_x86_32`, in the body and in the tail.
mix_k32 : ℕ → ℕ
unfolding rotl32
mix_k32 k1 = mul32 (rotl32 (mul32 k1 0xcc9e2d51) 15) 0x1b873593

-- The body; `n` blocks are left, from `pos` on.
body32 : (n : ℕ) → List ℕ → (pos h1 : ℕ) → Outcome ℕ
unfolding rotl32 mix_k32
body32 zero key pos h1 = done h1
body32 (suc n) key pos h1 = elim (read_little_endian32 key pos) [
  | done k1 ↦ body32 n key (pos + 4) (u32 (rotl32 (bit_xor h1 (mix_k32 k1)) 13 * 5 + 0xe6546b64))
  | thrown c ↦ thrown c
  | fault x ↦ fault x
]

-- The bytes of a tail as a number, the last highest: `k1 ^= tail[i] << 8 * i` for each of them.
tail_word : (shift : ℕ) → List ℕ → ℕ
tail_word shift [] = 0
tail_word shift (b ∷ bs) = bit_xor (tail_word (shift + 8) bs) (b * 2 ^ shift)

tail32 : List ℕ → ℕ → ℕ
unfolding mix_k32 tail_word
tail32 [] h1 = h1
tail32 (b ∷ bs) h1 = bit_xor h1 (mix_k32 (tail_word 0 (b ∷ bs)))

-- What follows the body.
finish32 : List ℕ → ℕ → ℕ
unfolding tail32 fmix32
finish32 key h1 =
    let len = length key in fmix32 (bit_xor (tail32 (drop (len / 4 * 4) key) h1) (u32 len))

hash32 : List ℕ → (seed : ℕ) → Outcome ℕ
unfolding body32 finish32
hash32 key seed = map_done (finish32 key) (body32 (length key / 4) key 0 seed)

-- `MurmurHash3_x86_32`, of the first `len` bytes of the key
pub murmur_hash3_x86_32 : (key : List ℕ) → (len seed : ℕ) → Outcome ℕ
unfolding as_int hash32
murmur_hash3_x86_32 key len seed = as_int len (λ n. hash32 (take n key) seed)

-- The scrambling of the two halves of a block in `MurmurHash3_x64_128`.
mix_k64 : ℕ → ℕ
unfolding rotl64
mix_k64 k1 = mul64 (rotl64 (mul64 k1 0x87c37b91114253d5) 31) 0x4cf5ad432745937f

mix_l64 : ℕ → ℕ
unfolding rotl64
mix_l64 k2 = mul64 (rotl64 (mul64 k2 0x4cf5ad432745937f) 33) 0x87c37b91114253d5

-- A round of the body on `h1`, `h2` with a block `k1`, `k2`.
round64 : (k1 k2 h1 h2 : ℕ) → ℕ × ℕ
unfolding rotl64 mix_k64 mix_l64
round64 k1 k2 h1 h2 =
    let a = u64 (add64 (rotl64 (bit_xor h1 (mix_k64 k1)) 27) h2 * 5 + 0x52dce729) in
    let b = u64 (add64 (rotl64 (bit_xor h2 (mix_l64 k2)) 31) a * 5 + 0x38495ab5) in (a, b)

body64 : (n : ℕ) → List ℕ → (pos h1 h2 : ℕ) → Outcome (ℕ × ℕ)
unfolding round64
body64 zero key pos h1 h2 = done (h1, h2)
body64 (suc n) key pos h1 h2 = elim (read_little_endian64 key pos) [
  | thrown c ↦ thrown c
  | fault x ↦ fault x
  | done k1 ↦ elim (read_little_endian64 key (pos + 8)) [
    | thrown c ↦ thrown c
    | fault x ↦ fault x
    | done k2 ↦ let h = round64 k1 k2 h1 h2 in body64 n key (pos + 16) h.0 h.1
  ]
]

tail_low : List ℕ → ℕ → ℕ
unfolding mix_k64 tail_word
tail_low [] h1 = h1
tail_low (b ∷ bs) h1 = bit_xor h1 (mix_k64 (tail_word 0 (b ∷ bs)))

tail_high : List ℕ → ℕ → ℕ
unfolding mix_l64 tail_word
tail_high [] h2 = h2
tail_high (b ∷ bs) h2 = bit_xor h2 (mix_l64 (tail_word 0 (b ∷ bs)))

-- What follows the body: the tail and the finalization. The second half of the result is not used.
finish64 : List ℕ → ℕ × ℕ → ℕ
unfolding tail_low tail_high fmix64
finish64 key h =
    let len = length key in
    let tail = drop (len / 16 * 16) key in
    let a = bit_xor (tail_low (take 8 tail) h.0) len in
    let b = bit_xor (tail_high (drop 8 tail) h.1) len in
    let c = add64 a b in let d = add64 b c in add64 (fmix64 c) (fmix64 d)

hash64 : List ℕ → (seed : ℕ) → Outcome ℕ
unfolding body64 finish64
hash64 key seed = map_done (finish64 key) (body64 (length key / 16) key 0 seed seed)

-- The first word of `MurmurHash3_x64_128`, of the first `len` bytes of the key
pub murmur_hash3_x64_128 : (key : List ℕ) → (len seed : ℕ) → Outcome ℕ
unfolding as_int hash64
murmur_hash3_x64_128 key len seed = as_int len (λ n. hash64 (take n key) seed)

pub murmurhash32_hash : List ℕ → (seed : ℕ) → Outcome ℕ
murmurhash32_hash buf seed = murmur_hash3_x86_32 buf (length buf) seed

pub murmurhash64_hash : List ℕ → (seed : ℕ) → Outcome ℕ
murmurhash64_hash buf seed = murmur_hash3_x64_128 buf (length buf) seed
