-- ===== src/Lsm/Filter.antt =====
-- components/lsm_tree/filter/bloom_filter.go, with the hash of hash/fnv.
pub mod Exist
use yukino_go.Base.{
  ℕ, zero, suc, ◌+◌, ◌-◌, ◌*◌, ◌/◌, ◌%◌, ◌^◌, min, max, Bool, true, false, Option, none, some, List,
  [], ◌∷◌, ◌++◌, length, set, nat_beq, if◌then◌else◌, Res, ok, err, panic, ◌>>=◌, index,
}

-- "m must be positive"
pub data Error : Type 0 where
  m_must_be_positive : Error

-- `m` is an `int` that is positive, and so small that `69*m` is one too.
pub record BloomFilter : Type 0 where
  pub m : ℕ
  pub hashed_keys : List ℕ

abbrev pub new_bloom_filter : ℕ → Res Error BloomFilter
new_bloom_filter m =
    if nat_beq m 0 then err m_must_be_positive else ok (record { m = m; hashed_keys = [] })

-- `a ^ b` of numbers of `n` bits.
unfoldable pub xor : ℕ → ℕ → ℕ → ℕ
xor zero a b = 0
xor (suc n) a b = (a + b) % 2 + 2 * xor n (a / 2) (b / 2)

-- The FNV-1a hash of 32 bits, from a state.
unfoldable pub fnv32a : ℕ → List ℕ → ℕ
fnv32a h [] = h
fnv32a h (b ∷ bs) = fnv32a (xor 32 h b * 16777619 % 2 ^ 32) bs

unfoldable pub hash_key : List ℕ → ℕ
hash_key key = fnv32a 2166136261 key

-- `(h >> 17) | (h << 15)`
abbrev pub delta : ℕ → ℕ
delta h = h / 2 ^ 17 + h * 2 ^ 15 % 2 ^ 32

-- `b & (1 << i) != 0`, and `b | (1 << i)`.
unfoldable pub has_bit : ℕ → ℕ → Bool
has_bit zero b = nat_beq (b % 2) 1
has_bit (suc i) b = has_bit i (b / 2)

unfoldable pub with_bit : ℕ → ℕ → ℕ
with_bit zero b = b - b % 2 + 1
with_bit (suc i) b = b % 2 + 2 * with_bit i (b / 2)

-- `(hashedKey + i*delta) % uint32(bf.m)`: a division by zero panics.
unfoldable pub target_bit : ℕ → ℕ → ℕ → Res Error ℕ
target_bit m hashed_key i =
    if nat_beq (m % 2 ^ 32) 0
    then panic
    else ok ((hashed_key + i * delta hashed_key) % 2 ^ 32 % (m % 2 ^ 32))

-- The loop of `Exist`, with `n` turns left.
unfoldable pub exist_from : ℕ → ℕ → ℕ → ℕ → List ℕ → Res Error Bool
exist_from zero i m hashed_key bitmap = ok true
exist_from (suc n) i m hashed_key bitmap =
    let later = exist_from n (i + 1) m hashed_key bitmap in
    target_bit m hashed_key i >>= λ bit.
    index bitmap (bit / 8) >>= λ b. if has_bit (bit % 8) b then later else ok false

-- The loop of `Hash` over the bits of a key.
unfoldable pub set_bits : ℕ → ℕ → ℕ → ℕ → List ℕ → Res Error (List ℕ)
set_bits zero i m hashed_key bitmap = ok bitmap
set_bits (suc n) i m hashed_key bitmap = do
  bit ← target_bit m hashed_key i
  b ← index bitmap (bit / 8)
  set_bits n (i + 1) m hashed_key (set bitmap (bit / 8) (with_bit (bit % 8) b))

-- The loop of `Hash` over the keys.
unfoldable pub set_keys : ℕ → ℕ → List ℕ → List ℕ → Res Error (List ℕ)
set_keys k m [] bitmap = ok bitmap
set_keys k m (h ∷ keys) bitmap = do bitmap ← set_bits k 0 m h bitmap; set_keys k m keys bitmap

-- `uint8` wraps before the bounds are taken.
unfoldable pub best_k : BloomFilter → Res Error ℕ
best_k bf =
    if nat_beq (length bf.hashed_keys) 0
    then panic
    else ok (min (max (69 * bf.m / 100 / length bf.hashed_keys % 256) 1) 30)

abbrev pub zeros : ℕ → List ℕ
zeros zero = []
zeros (suc n) = 0 ∷ zeros n

unfoldable pub new_bitmap : ℕ → BloomFilter → List ℕ
new_bitmap k bf = zeros ((bf.m + 7) / 8) ++ k ∷ []

unfoldable pub hash : BloomFilter → Res Error (List ℕ)
hash bf = do k ← best_k bf; set_keys k bf.m bf.hashed_keys (new_bitmap k bf)

-- `Exist`; `none` is the nil bitmap.
unfoldable pub exist : Option (List ℕ) → List ℕ → BloomFilter → Res Error Bool
exist given key bf = do
  bitmap ← elim given [ none ↦ hash bf | some bitmap ↦ ok bitmap ]
  k ← if nat_beq (length bitmap) 0 then panic else index bitmap (length bitmap - 1)
  exist_from k 0 bf.m (hash_key key) bitmap

unfoldable pub add : List ℕ → BloomFilter → BloomFilter
add key bf = record bf { hashed_keys = bf.hashed_keys ++ hash_key key ∷ [] }

abbrev pub reset : BloomFilter → BloomFilter
reset bf = record bf { hashed_keys = [] }

abbrev pub key_len : BloomFilter → ℕ
key_len bf = length bf.hashed_keys
