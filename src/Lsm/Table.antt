-- ===== src/Lsm/Table.antt =====
-- components/lsm_tree/sst_writer.go and sst_reader.go, and GetSeparatorBetween of util/string.go: a
-- table, as the bytes of its file.
pub mod Writing
pub mod Footer
pub mod RoundTrip
mod Tests
use yukino_go.Base.{
  ℕ, zero, suc, ◌+◌, ◌-◌, ◌^◌, ◌%◌, Bool, true, false, ◌||◌, Option, none, some, List, [], ◌∷◌,
  ◌++◌, length, drop, nat_beq, ltb, leb, insert, nat_eq, if◌then◌else◌, Res, ok, err, panic, ◌>>=◌,
}
use yukino_go.Lsm.{
  Error, eof, unexpected_eof, overflow, short_write, foreign, Read, put_uvarint, read_uvarint,
  make_read,
}
use yukino_go.Lsm.Wal.{Kv}
use yukino_go.Lsm.Block.{Block, new_block, append, size, flush_to, fold_records, read_block_data}
use yukino_go.Lsm.Filter.{BloomFilter, hash, key_len}
use yukino_go.Lsm.Filter as Filter

-- A key, less one in its last byte.
unfoldable pub less_one : List ℕ → List ℕ
less_one [] = []
less_one (y ∷ []) = (y + 255) % 256 ∷ []
less_one (y ∷ z ∷ b) = y ∷ less_one (z ∷ b)

unfoldable pub get_separator_between : List ℕ → List ℕ → List ℕ
get_separator_between a [] = []
get_separator_between [] (y ∷ b) = less_one (y ∷ b)
get_separator_between (x ∷ a) (y ∷ b) = x ∷ a

pub record Index : Type 0 where
  pub key : List ℕ
  pub prev_block_offset : ℕ
  pub prev_block_size : ℕ

-- A writer, with the state of `conf.Filter`.
pub record SstWriter : Type 0 where
  pub data_buf : List ℕ
  pub filter_buf : List ℕ
  pub index_buf : List ℕ
  pub block_to_filter : List (ℕ × List ℕ)
  pub index : List Index
  pub data_block : Block
  pub filter_block : Block
  pub index_block : Block
  pub prev_key : List ℕ
  pub prev_block_offset : ℕ
  pub prev_block_size : ℕ
  pub filter : BloomFilter

-- With a filter of `m` bits that has no keys.
abbrev pub new_sst_writer : ℕ → SstWriter
new_sst_writer m = record {
  data_buf = [];
  filter_buf = [];
  index_buf = [];
  block_to_filter = [];
  index = [];
  data_block = new_block;
  filter_block = new_block;
  index_block = new_block;
  prev_key = [];
  prev_block_offset = 0;
  prev_block_size = 0;
  filter = record { m = m; hashed_keys = [] };
}

-- What `insertIndex` appends to the block of the index.
abbrev pub index_kv : Index → Kv
index_kv i = record {
  key = i.key;
  value = put_uvarint i.prev_block_offset ++ put_uvarint i.prev_block_size;
}

unfoldable pub insert_index : List ℕ → SstWriter → SstWriter
insert_index key w =
    let i : Index = record {
      key = get_separator_between w.prev_key key;
      prev_block_offset = w.prev_block_offset;
      prev_block_size = w.prev_block_size;
    } in
    record w { index_block = append (index_kv i) w.index_block; index = w.index ++ i ∷ [] }

-- What `refreshBlock` appends to the block of the filters.
abbrev pub filter_kv : ℕ × List ℕ → Kv
filter_kv (offset, bitmap) = record { key = put_uvarint offset; value = bitmap }

-- `refreshBlock` after its guard.
unfoldable pub close_block : List ℕ → SstWriter → SstWriter
close_block bitmap w =
    let offset = length w.data_buf in
    let (data_buf, block_size, data_block) = flush_to w.data_buf w.data_block in
    record w {
      prev_block_offset = offset;
      block_to_filter = insert offset bitmap w.block_to_filter;
      filter_block = append (filter_kv (offset, bitmap)) w.filter_block;
      filter = Filter.reset w.filter;
      data_buf = data_buf;
      data_block = data_block;
      prev_block_size = block_size;
    }

unfoldable pub refresh_block : SstWriter → Res Filter.Error SstWriter
refresh_block w =
    if nat_beq (key_len w.filter) 0
    then ok w
    else (hash w.filter >>= λ bitmap. ok (close_block bitmap w))

-- `Append` before its last test.
unfoldable pub put_entry : Kv → SstWriter → SstWriter
put_entry kv w =
    let w' = if nat_beq w.data_block.entries_cnt 0 then insert_index kv.key w else w in
    record w' {
      data_block = append kv w'.data_block;
      filter = Filter.add kv.key w'.filter;
      prev_key = kv.key;
    }

-- `Append`, where `block_size` is `SSTDataBlockSize`.
unfoldable pub append_kv : ℕ → Kv → SstWriter → Res Filter.Error SstWriter
append_kv block_size kv w =
    let w' = put_entry kv w in
    let closed = refresh_block w' in if leb block_size (size w'.data_block) then closed else ok w'

-- The numbers of the footer, in a footer of `n` bytes: `PutUvarint` panics where they do not fit.
unfoldable pub footer : ℕ → List ℕ → Res Filter.Error (List ℕ)
footer n numbers =
    if leb (length numbers) n then ok (numbers ++ Filter.zeros (n - length numbers)) else panic

-- What `Finish` returns, with the bytes of the file.
pub record Finished : Type 0 where
  pub table_bytes : ℕ
  pub block_to_filter : List (ℕ × List ℕ)
  pub index : List Index
  pub file : List ℕ

-- The numbers of a footer over the bytes of the data, the filters and the index.
abbrev pub footer_numbers : List ℕ → List ℕ → List ℕ → List ℕ
footer_numbers entries filters index =
    put_uvarint (length entries)
    ++ (put_uvarint (length filters)
        ++ (put_uvarint (length entries + length filters) ++ put_uvarint (length index)))

-- The beginning of `Finish`: no more blocks come.
unfoldable pub close_table : SstWriter → Res Filter.Error SstWriter
close_table w = refresh_block w >>= λ w'. ok (insert_index w'.prev_key w')

-- `Finish`, where `footer_size` is `SSTFooterSize` and the operating system writes all bytes.
unfoldable pub finish : ℕ → SstWriter → Res Filter.Error Finished
finish footer_size w = do
  w' ← close_table w
  let filter_buf = (flush_to w'.filter_buf w'.filter_block).0
  let index_buf = (flush_to w'.index_buf w'.index_block).0
  end ← footer footer_size (footer_numbers w'.data_buf filter_buf index_buf)
  ok (record {
    table_bytes = length w'.data_buf + length filter_buf + length index_buf;
    block_to_filter = w'.block_to_filter;
    index = w'.index;
    file = w'.data_buf ++ (filter_buf ++ (index_buf ++ end));
  })

pub record SstReader : Type 0 where
  pub src : List ℕ
  pub filter_offset : ℕ
  pub filter_size : ℕ
  pub index_offset : ℕ
  pub index_size : ℕ

abbrev pub new_sst_reader : List ℕ → SstReader
new_sst_reader src = record {
  src = src;
  filter_offset = 0;
  filter_size = 0;
  index_offset = 0;
  index_size = 0;
}

-- What the operating system says of a position before the file or past `int64`.
abbrev invalid_argument : Error
invalid_argument = foreign 22

-- `readFooterLocked`; where it fails nobody looks at the fields.
unfoldable pub read_footer : ℕ → SstReader → Res Error SstReader
read_footer footer_size r = if ltb (length r.src) footer_size then err invalid_argument else do
  (filter_offset, bs) ← read_uvarint (drop (length r.src - footer_size) r.src)
  (filter_size, bs) ← read_uvarint bs
  (index_offset, bs) ← read_uvarint bs
  (index_size, bs) ← read_uvarint bs
  ok (record r {
    filter_offset = filter_offset;
    filter_size = filter_size;
    index_offset = index_offset;
    index_size = index_size;
  })

-- `binary.Uvarint`: the value, and what follows it, `buf[n:]`. Of a number that is cut off it says
-- that it has no bytes, of one that is too large that it has fewer.
unfoldable pub uvarint : List ℕ → Read ℕ
uvarint buf = elim (read_uvarint buf) [
  | ok (x, rest) ↦ ok (x, rest)
  | err overflow ↦ panic
  | err e ↦ ok (0, buf)
  | panic ↦ panic
]

-- The value only, which is 0 if it has none.
unfoldable pub uvarint_value : List ℕ → ℕ
uvarint_value buf = elim (read_uvarint buf) [ ok (x, rest) ↦ x | err e ↦ 0 | panic ↦ 0 ]

-- The ends of the bodies of the loops of `readFilter` and `readIndex`.
unfoldable pub put_filter : Kv → List (ℕ × List ℕ) → Res Error (List (ℕ × List ℕ))
put_filter kv filters = ok (insert (uvarint_value kv.key) kv.value filters)

unfoldable pub put_index : Kv → List Index → Res Error (List Index)
put_index kv index = do
  (offset, rest) ← uvarint kv.value
  ok (
      index
      ++ record { key = kv.key; prev_block_offset = offset; prev_block_size = uvarint_value rest }
        ∷ [])

module _ (limit : ℕ) (spare : List ℕ → List ℕ) (footer_size : ℕ) where
  unfoldable pub read_block : ℕ → ℕ → SstReader → Res Error (List ℕ)
  read_block offset block_size r =
      if leb (2 ^ 63) offset
      then err invalid_argument
      else (make_read limit block_size (drop offset r.src) >>= λ (buf, rest). ok buf)

  -- The footer is read only where a field that is asked for is zero.
  abbrev pub with_footer : Bool → SstReader → Res Error SstReader
  with_footer unread r = if unread then read_footer footer_size r else ok r

  unfoldable pub read_filter : SstReader → Res Error (List (ℕ × List ℕ))
  read_filter r = do
    r ← with_footer (nat_beq r.filter_offset 0 || nat_beq r.filter_size 0) r
    block ← read_block r.filter_offset r.filter_size r
    fold_records limit spare put_filter (suc (length block)) [] block []

  unfoldable pub read_index : SstReader → Res Error (List Index)
  read_index r = do
    r ← with_footer (nat_beq r.index_offset 0 || nat_beq r.index_size 0) r
    block ← read_block r.index_offset r.index_size r
    fold_records limit spare put_index (suc (length block)) [] block []

  unfoldable pub read_data : SstReader → Res Error (List Kv)
  read_data r = do
    r ←
        with_footer
          (nat_beq r.index_offset 0
            || nat_beq r.index_size 0
            || nat_beq r.filter_offset 0
            || nat_beq r.filter_size 0)
          r
    block ← read_block 0 r.filter_offset r
    read_block_data limit spare block
