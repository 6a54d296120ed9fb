-- ===== src/Lsm/Wal.antt =====
-- components/lsm_tree/wal/writer.go and reader.go: the log of the writes, as the bytes of its file.
pub mod Restore
use yukino_go.Base.{
  ℕ, zero, suc, ◌+◌, Bool, true, false, Option, none, some, List, [], ◌∷◌, ◌++◌, length, take,
  nat_beq, if◌then◌else◌, Res, ok, err, panic, ◌>>=◌,
}
use yukino_go.Lsm.{
  Error, eof, unexpected_eof, overflow, short_write, foreign, Read, put_uvarint, read_uvarint,
  make_read,
}

-- memtable.KV
pub record Kv : Type 0 where
  pub key : List ℕ
  pub value : List ℕ

-- The buffer that `Write` hands to the file.
abbrev pub encode_kv : Kv → List ℕ
encode_kv kv = put_uvarint (length kv.key) ++ put_uvarint (length kv.value) ++ kv.key ++ kv.value

-- `Write` to a file of which the operating system writes `n` bytes, and then may fail.
unfoldable pub write : ℕ → Option Error → Kv → List ℕ → List ℕ × Res Error (Unit {0})
write n (some e) kv file = (file ++ take n (encode_kv kv), err e)
write n none kv file = (
  file ++ take n (encode_kv kv),
  if nat_beq n (length (encode_kv kv)) then ok tt else err short_write,
)

-- The body of the loop of `readAll`, after the length of the key.
unfoldable pub read_rest : ℕ → ℕ → List ℕ → Read Kv
read_rest limit key_len bs = do
  (val_len, bs) ← read_uvarint bs
  (key, bs) ← make_read limit key_len bs
  (value, bs) ← make_read limit val_len bs
  ok (record { key = key; value = value }, bs)

-- The loop of `readAll`, on fuel.
unfoldable pub read_loop : ℕ → ℕ → List ℕ → Res Error (List Kv)
read_loop limit zero bs = ok []
read_loop limit (suc n) bs = elim (read_uvarint bs) [
  | err eof ↦ ok []
  | err e ↦ err e
  | panic ↦ panic
  | ok (key_len, bs') ↦
      read_rest limit key_len bs' >>= λ (kv, bs''). read_loop limit n bs'' >>= λ kvs. ok (kv ∷ kvs)
]

-- Every record takes a byte at least.
unfoldable pub read_all : ℕ → List ℕ → Res Error (List Kv)
read_all limit bs = read_loop limit (suc (length bs)) bs
