-- ===== src/Lsm/Block.antt =====
-- components/lsm_tree/block.go, SharedPrefixLen of util/string.go, and the reading of blocks of
-- sst_reader.go.
pub mod RoundTrip
pub mod Coded
use yukino_go.Base.{
  ℕ, zero, suc, ◌+◌, ◌-◌, List, [], ◌∷◌, ◌++◌, length, take, drop, nat_beq, if◌then◌else◌, Res, ok,
  err, panic, ◌>>=◌, slice,
}
use yukino_go.Lsm.{
  Error, eof, unexpected_eof, overflow, short_write, foreign, Read, put_uvarint, read_uvarint,
  make_read,
}
use yukino_go.Lsm.Wal.{Kv}

-- The bytes of the record, and what `Append` keeps of the last key.
pub record Block : Type 0 where
  pub record_bytes : List ℕ
  pub entries_cnt : ℕ
  pub prev_key : List ℕ

abbrev pub new_block : Block
new_block = record { record_bytes = []; entries_cnt = 0; prev_key = [] }

unfoldable pub shared_prefix_len : List ℕ → List ℕ → ℕ
shared_prefix_len [] b = 0
shared_prefix_len (x ∷ a) [] = 0
shared_prefix_len (x ∷ a) (y ∷ b) =
    let more = shared_prefix_len a b in if nat_beq x y then suc more else 0

-- What `Append` writes of a key, of which the last one shares `shared` bytes, and its value.
abbrev pub encode_entry : ℕ → Kv → List ℕ
encode_entry shared kv =
    put_uvarint shared
    ++ put_uvarint (length kv.key - shared)
    ++ put_uvarint (length kv.value)
    ++ drop shared kv.key
    ++ kv.value

unfoldable pub append : Kv → Block → Block
append kv b = record {
  record_bytes = b.record_bytes ++ encode_entry (shared_prefix_len b.prev_key kv.key) kv;
  entries_cnt = suc b.entries_cnt;
  prev_key = kv.key;
}

abbrev pub size : Block → ℕ
size b = length b.record_bytes

unfoldable pub clear : Block → Block
clear b = record b { record_bytes = []; entries_cnt = 0; prev_key = [] }

-- `FlushTo` a buffer, which takes every byte.
unfoldable pub flush_to : List ℕ → Block → List ℕ × ℕ × Block
flush_to dest b = (dest ++ b.record_bytes, size b, clear b)

-- `limit` is how long a slice may be, and `spare` are the bytes of a slice's array after its end,
-- up to which it can be sliced.
module _ (limit : ℕ) (spare : List ℕ → List ℕ) where
  unfoldable pub read_record : List ℕ → List ℕ → Read Kv
  read_record prev_key buf = do
    (shared, buf) ← read_uvarint buf
    (key_len, buf) ← read_uvarint buf
    (val_len, buf) ← read_uvarint buf
    (key, buf) ← make_read limit key_len buf
    (value, buf) ← make_read limit val_len buf
    prefix ← slice (prev_key ++ spare prev_key) 0 shared
    ok (record { key = prefix ++ key; value = value }, buf)

  -- The loop of `ReadBlockData`, on fuel.
  unfoldable pub read_records : ℕ → List ℕ → List ℕ → Res Error (List Kv)
  read_records zero prev_key buf = ok []
  read_records (suc n) prev_key buf = elim (read_record prev_key buf) [
    | err eof ↦ ok []
    | err e ↦ err e
    | panic ↦ panic
    | ok (kv, buf') ↦ read_records n kv.key buf' >>= λ more. ok (kv ∷ more)
  ]

  -- The loop of `readFilter` and `readIndex`, over what is done with a record, on fuel.
  unfoldable pub fold_records :
      {A : Type 0} → (Kv → A → Res Error A) → ℕ → List ℕ → List ℕ → A → Res Error A
  fold_records step zero prev_key buf acc = ok acc
  fold_records step (suc n) prev_key buf acc = elim (read_record prev_key buf) [
    | err eof ↦ ok acc
    | err e ↦ err e
    | panic ↦ panic
    | ok (kv, buf') ↦ step kv acc >>= fold_records step n kv.key buf'
  ]

  -- Every record takes a byte at least.
  unfoldable pub read_block_data : List ℕ → Res Error (List Kv)
  read_block_data block = read_records (suc (length block)) [] block
