-- ===== src/Lsm/Tests.antt =====
-- Runs of the log, the blocks and the filter, and the theorems at concrete inputs.
use yukino_go.Base.{
  ℕ, ◌<◌, ◌≡◌, ◌≢◌, refl, arith, inl, inr, true, none, some, List, [], ◌∷◌, All, length, ok, err,
}
use yukino_go.Lsm.{eof, unexpected_eof, put_more, put_uvarint, read_uvarint, read_more, make_read}
use yukino_go.Lsm.Wal.{Kv, encode_kv, write, read_rest, read_loop, read_all}
use yukino_go.Lsm.Wal.Restore.{IsSized, written, read_all-written, read_all-torn}
use yukino_go.Lsm.Block.{new_block, append, read_block_data, shared_prefix_len}
use yukino_go.Lsm.Block.RoundTrip.{appended, read_block_data-appended}
use yukino_go.Lsm.Filter.{BloomFilter, hash, exist, add, hash_key}
use yukino_go.Lsm.Filter.Exist.{added, exist-hash}

abbrev cat : Kv
cat = record { key = 99 ∷ 97 ∷ 116 ∷ []; value = 1 ∷ 2 ∷ [] }

abbrev car : Kv
car = record { key = 99 ∷ 97 ∷ 114 ∷ []; value = [] }

abbrev pets : List Kv
pets = cat ∷ car ∷ []

abbrev no_spare : List ℕ → List ℕ
no_spare xs = []

-- 300 takes two bytes.
three_hundred : put_uvarint 300 ≡ 172 ∷ 2 ∷ []
unfolding put_more
three_hundred = refl

-- The hash of "cat".
hash_key_cat : hash_key cat.key ≡ 108289031
unfolding hash_key yukino_go.Lsm.Filter.fnv32a yukino_go.Lsm.Filter.xor
hash_key_cat = refl

-- A torn log fails.
torn-cat : read_all 100 (3 ∷ 2 ∷ 99 ∷ []) ≡ err unexpected_eof
unfolding read_all read_loop read_rest read_uvarint read_more make_read
torn-cat = refl

-- The keys of a block share their beginnings.
append-pets :
    (appended pets new_block).record_bytes
    ≡ 0 ∷ 3 ∷ 2 ∷ 99 ∷ 97 ∷ 116 ∷ 1 ∷ 2 ∷ 2 ∷ 1 ∷ 0 ∷ 114 ∷ []
unfolding append put_more shared_prefix_len
append-pets = refl

pets-IsSized : All (IsSized 100) pets
pets-IsSized = ((omega arith, omega arith), ((omega arith, omega arith), tt))

read_all-written_example : read_all 100 (written pets []) ≡ ok pets
read_all-written_example = read_all-written 100 (omega arith) pets pets-IsSized

cat_long : 3 < length (encode_kv cat)
unfolding put_more
cat_long = omega arith

read_all-torn_example : read_all 100 ((write 3 none cat (written pets [])).0) ≢ ok pets
read_all-torn_example =
    read_all-torn 100 (omega arith) pets 3 none cat pets pets-IsSized (omega arith, omega arith)
      (omega arith) cat_long

read_block_data-appended_example :
    read_block_data 100 no_spare (appended pets new_block).record_bytes ≡ ok pets
read_block_data-appended_example =
    read_block_data-appended 100 no_spare (omega arith) pets pets-IsSized

exist-hash_example :
    (bitmap : List ℕ) × (hash (added (cat.key ∷ car.key ∷ []) (record { m = 64; hashed_keys = [] }))
      ≡ ok bitmap)
    × (exist (some bitmap) car.key (added [] (record { m = 64; hashed_keys = [] })) ≡ ok true)
exist-hash_example =
    exist-hash 64 (cat.key ∷ car.key ∷ []) [] car.key (omega arith) (inr (inl refl))
