-- ===== src/Murmur/Tests.antt =====
-- Published values of the two hash functions, on "hello".
use sparkey.Base.{ℕ, List, [], ◌∷◌, ◌≡◌, refl}
use sparkey.Exec.{done}
use sparkey.Endian.{read_little_endian32, from_little_endian, peek}
use sparkey.Murmur.{murmur_hash3_x86_32, murmur_hash3_x64_128}

abbrev hello : List ℕ
hello = 104 ∷ 101 ∷ 108 ∷ 108 ∷ 111 ∷ []

murmur_hash3_x86_32-hello : murmur_hash3_x86_32 hello 5 0 ≡ done 0x248bfa47
unfolding murmur_hash3_x86_32 read_little_endian32 from_little_endian peek
murmur_hash3_x86_32-hello = refl

murmur_hash3_x64_128-hello : murmur_hash3_x64_128 hello 5 0 ≡ done 0xcbd8a7b341bd9b02
unfolding murmur_hash3_x64_128
murmur_hash3_x64_128-hello = refl
