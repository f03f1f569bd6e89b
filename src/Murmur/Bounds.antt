-- ===== src/Murmur/Bounds.antt =====
-- Both hash functions return for every key whose length is an `int`, and their values have the width of the hash.
use sparkey.Base.{
  ℕ, zero, suc, ◌+◌, ◌*◌, ◌/◌, ◌≤◌, List, length, take, drop, bit_xor, u32, ◌^◌, ◌<◌, ltb, lt→ltb,
  true, IsU32, IsU64, ◌≡◌, refl, ap, ◌∙◌, arith,
}
use sparkey.Base.Bits.{bit_xor-lt}
use sparkey.Exec.{Outcome, done, thrown, fault}
use sparkey.Endian.{from_little_endian, map_done, read_little_endian32, read_little_endian64}
use sparkey.Endian.Memory.{peek_inside}
use sparkey.Murmur.{
  rotl32, mix_k32, fmix32, body32, finish32, hash32, murmur_hash3_x86_32, body64, round64, finish64,
  hash64, as_int, murmur_hash3_x64_128, murmurhash32_hash, murmurhash64_hash,
}

-- A round with what the reads give.
body32_from : (n : ℕ) → List ℕ → (pos h1 : ℕ) → Outcome ℕ → Outcome ℕ
unfolding body32
body32_from n key pos h1 o = elim o [
  | done k1 ↦ body32 n key (pos + 4) (u32 (rotl32 (bit_xor h1 (mix_k32 k1)) 13 * 5 + 0xe6546b64))
  | thrown c ↦ thrown c
  | fault x ↦ fault x
]

body64_from : (n : ℕ) → List ℕ → (pos h1 h2 : ℕ) → Outcome ℕ → Outcome ℕ → Outcome (ℕ × ℕ)
body64_from n key pos h1 h2 o o' = elim o [
  | thrown c ↦ thrown c
  | fault x ↦ fault x
  | done k1 ↦ elim o' [
    | thrown c ↦ thrown c
    | fault x ↦ fault x
    | done k2 ↦ let h = round64 k1 k2 h1 h2 in body64 n key (pos + 16) h.0 h.1
  ]
]

body32_returns :
    (n : ℕ) (key : List ℕ) (pos h1 : ℕ)
    → pos + n * 4 ≤ length key
    → (h : ℕ) × (body32 n key pos h1 ≡ done h)
unfolding body32 body32_from read_little_endian32
body32_returns zero key pos h1 fits = (h1, refl)
body32_returns (suc n) key pos h1 fits =
    let read = peek_inside key pos 4 (omega (arith, fits)) in
    let k1 = from_little_endian (take 4 (drop pos key)) in
    let next = u32 (rotl32 (bit_xor h1 (mix_k32 k1)) 13 * 5 + 0xe6546b64) in
    let (h, e) = body32_returns n key (pos + 4) next (omega (arith, fits)) in
    (h, ap (body32_from n key pos h1) (ap (map_done from_little_endian) read) ∙ e)

body64_returns :
    (n : ℕ) (key : List ℕ) (pos h1 h2 : ℕ)
    → pos + n * 16 ≤ length key
    → (h : ℕ × ℕ) × (body64 n key pos h1 h2 ≡ done h)
unfolding body64 body64_from read_little_endian64
body64_returns zero key pos h1 h2 fits = ((h1, h2), refl)
body64_returns (suc n) key pos h1 h2 fits =
    let low = peek_inside key pos 8 (omega (arith, fits)) in
    let high = peek_inside key (pos + 8) 8 (omega (arith, fits)) in
    let k1 = from_little_endian (take 8 (drop pos key)) in
    let k2 = from_little_endian (take 8 (drop (pos + 8) key)) in
    let next = round64 k1 k2 h1 h2 in
    let (h, e) = body64_returns n key (pos + 16) next.0 next.1 (omega (arith, fits)) in
    (
      h,
      ap (λ o. body64_from n key pos h1 h2 o (read_little_endian64 key (pos + 8)))
            (ap (map_done from_little_endian) low)
          ∙ ap (body64_from n key pos h1 h2 (done k1)) (ap (map_done from_little_endian) high)
          ∙ e,
    )

fmix32-IsU32 : (h : ℕ) → IsU32 (fmix32 h)
unfolding fmix32
fmix32-IsU32 h = bit_xor-lt 32 _ _ (omega arith) (omega arith)

as_int-returns : {A : Type 0} (len : ℕ) (k : ℕ → Outcome A) → len < 2 ^ 31 → as_int len k ≡ k len
unfolding as_int
as_int-returns len k short =
    let same : u32 len ≡ len = omega (arith, short) in
    let fits : ltb (u32 len) (2 ^ 31) ≡ true = lt→ltb _ _ (omega (arith, short)) in
    rw (fits, same) refl

hash32-IsU32 : (key : List ℕ) (seed : ℕ) → (h : ℕ) × (hash32 key seed ≡ done h) × IsU32 h
unfolding hash32 finish32
hash32-IsU32 key seed =
    let (h1, e) = body32_returns (length key / 4) key 0 seed (omega arith) in
    (finish32 key h1, ap (map_done (finish32 key)) e, fmix32-IsU32 _)

hash64-IsU64 : (key : List ℕ) (seed : ℕ) → (h : ℕ) × (hash64 key seed ≡ done h) × IsU64 h
unfolding hash64 finish64
hash64-IsU64 key seed =
    let (h, e) = body64_returns (length key / 16) key 0 seed seed (omega arith) in
    (finish64 key h, ap (map_done (finish64 key)) e, omega arith)

pub murmurhash32_hash-IsU32 :
    (key : List ℕ) (seed : ℕ)
    → length key < 2 ^ 31
    → (h : ℕ) × (murmurhash32_hash key seed ≡ done h) × IsU32 h
unfolding murmurhash32_hash murmur_hash3_x86_32
murmurhash32_hash-IsU32 key seed short =
    let (h, e, fits) = hash32-IsU32 (take (length key) key) seed in
    (h, as_int-returns (length key) (λ n. hash32 (take n key) seed) short ∙ e, fits)

pub murmurhash64_hash-IsU64 :
    (key : List ℕ) (seed : ℕ)
    → length key < 2 ^ 31
    → (h : ℕ) × (murmurhash64_hash key seed ≡ done h) × IsU64 h
unfolding murmurhash64_hash murmur_hash3_x64_128
murmurhash64_hash-IsU64 key seed short =
    let (h, e, fits) = hash64-IsU64 (take (length key) key) seed in
    (h, as_int-returns (length key) (λ n. hash64 (take n key) seed) short ∙ e, fits)
