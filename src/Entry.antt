-- ===== src/Entry.antt =====
-- The entries of a log and their bytes in a log file without compression (README.md): a put is the
-- length of its key plus one, the length of its value, the key and the value; a delete is 0, the
-- length of its key and the key.
use sparkey.Base.{ℕ, ◌+◌, ◌^◌, ◌<◌, List, [], ◌∷◌, ◌++◌, length}
use sparkey.Vlq.Format.{vlq}

pub data Entry : Type 0 where
  put : (key value : List ℕ) → Entry
  delete : (key : List ℕ) → Entry

abbrev pub encode : Entry → List ℕ
encode (put key value) = vlq (length key + 1) ++ (vlq (length value) ++ (key ++ value))
encode (delete key) = vlq 0 ++ (vlq (length key) ++ ([] ++ key))

abbrev pub encode_all : List Entry → List ℕ
encode_all [] = []
encode_all (e ∷ es) = encode e ++ encode_all es

-- The lengths are those of arrays in memory.
abbrev pub IsStorable : Entry → Type 0
IsStorable (put key value) = (length key + 1 < 2 ^ 64) × (length value < 2 ^ 64)
IsStorable (delete key) = length key < 2 ^ 64
