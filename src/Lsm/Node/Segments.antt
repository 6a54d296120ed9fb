-- ===== src/Lsm/Node/Segments.antt =====
-- A writer's table as the blocks that it has closed, and the one that is open.
use mathlib.Core.List.{append_assoc, append-nil, map-append}
use yukino_go.Base.{
  ℕ, ◌+◌, ◌≡◌, ◌≢◌, refl, sym, ap, ◌∙◌, arith, List, [], ◌∷◌, ◌++◌, map, All, length, length-append,
  nat_eq, ok,
}
use yukino_go.Lsm.Wal.{Kv}
use yukino_go.Lsm.Block.{Block, append}
use yukino_go.Lsm.Block.Coded.{Coded, last_key, last_key-append, Holds, append-Holds}
use yukino_go.Lsm.Filter as Filter
use yukino_go.Lsm.Filter.{BloomFilter, hash, key_len, hash_key}
use yukino_go.Lsm.Filter.Exist.{added}
use yukino_go.Lsm.Table.{Index, SstWriter, new_sst_writer, less_one, get_separator_between}
use yukino_go.Lsm.Table.Writing.{put_all}

-- A block that is closed: where it stands, its entries, which are some, its bytes and its filter.
pub record Segment : Type 0 where
  pub offset : ℕ
  pub first : Kv
  pub more : List Kv
  pub bytes : List ℕ
  pub bitmap : List ℕ

abbrev pub entries_of : Segment → List Kv
entries_of s = s.first ∷ s.more

abbrev pub index_of : Segment → Index
index_of s = record {
  key = last_key s.first.key s.more;
  prev_block_offset = s.offset;
  prev_block_size = length s.bytes;
}

abbrev pub filter_of : Segment → ℕ × List ℕ
filter_of s = (s.offset, s.bitmap)

abbrev pub all_entries : List Segment → List Kv
all_entries [] = []
all_entries (s ∷ ss) = entries_of s ++ all_entries ss

abbrev pub all_bytes : List Segment → List ℕ
all_bytes [] = []
all_bytes (s ∷ ss) = s.bytes ++ all_bytes ss

-- The blocks stand one after the other, from an offset on.
abbrev pub Placed : ℕ → List Segment → Type 0
Placed n [] = Unit
Placed n (s ∷ ss) = (s.offset ≡ n) × Placed (n + length s.bytes) ss

abbrev pub keys_of : List Kv → List (List ℕ)
keys_of kvs = map (λ kv. kv.key) kvs

abbrev pub empty_filter : ℕ → BloomFilter
empty_filter m = record { m = m; hashed_keys = [] }

abbrev pub IsSegment : ℕ → Segment → Type 0
IsSegment m s =
    Coded [] (entries_of s) s.bytes
    × (hash (added (keys_of (entries_of s)) (empty_filter m)) ≡ ok s.bitmap)

-- The index of these blocks, where the table begins with the key.
abbrev pub full_index : List ℕ → List Segment → List Index
full_index key ss =
    record { key = less_one key; prev_block_offset = 0; prev_block_size = 0 } ∷ map index_of ss

-- The entry of the index that is still to be made.
abbrev pub pending : SstWriter → Index
pending w = record {
  key = w.prev_key;
  prev_block_offset = w.prev_block_offset;
  prev_block_size = w.prev_block_size;
}

-- A block is open; or there is none yet; or one was closed last.
pub data Stage (key : List ℕ) (w : SstWriter) (closed : List Segment) (current : List Kv)
    : Type 0 where
  in_block :
      (kv : Kv) (more : List Kv)
      → current ≡ kv ∷ more
      → w.index ≡ full_index key closed
      → Stage key w closed current
  fresh :
      current ≡ []
      → closed ≡ []
      → w.index ≡ []
      → w.prev_block_offset ≡ 0
      → w.prev_block_size ≡ 0
      → Stage key w closed current
  between :
      current ≡ []
      → w.prev_key ≢ []
      → w.index ++ pending w ∷ [] ≡ full_index key closed
      → Stage key w closed current

pub record IsSegmented (m : ℕ) (key : List ℕ) (w : SstWriter) (kvs : List Kv) : Type 0 where
  pub closed : List Segment
  pub current : List Kv
  pub whole : all_entries closed ++ current ≡ kvs
  pub bytes : w.data_buf ≡ all_bytes closed
  pub placed : Placed 0 closed
  pub each : All (IsSegment m) closed
  pub filters : w.block_to_filter ≡ put_all (map filter_of closed) []
  pub holds : Holds w.data_block current
  pub count : w.data_block.entries_cnt ≡ length current
  pub filter : w.filter ≡ added (keys_of current) (empty_filter m)
  pub prev : w.prev_key ≡ last_key [] kvs
  pub stage : Stage key w closed current

pub new_sst_writer-IsSegmented : (m : ℕ) (key : List ℕ) → IsSegmented m key (new_sst_writer m) []
new_sst_writer-IsSegmented m key = record {
  closed = [];
  current = [];
  whole = refl;
  bytes = refl;
  placed = tt;
  each = tt;
  filters = refl;
  holds = record { coded = refl; last = refl };
  count = refl;
  filter = refl;
  prev = refl;
  stage = fresh refl refl refl refl refl;
}

pub get_separator_between-nil : (b : List ℕ) → get_separator_between [] b ≡ less_one b
unfolding get_separator_between less_one
get_separator_between-nil [] = refl
get_separator_between-nil (y ∷ b) = refl

pub get_separator_between-some : (a b : List ℕ) → a ≢ [] → b ≢ [] → get_separator_between a b ≡ a
unfolding get_separator_between
get_separator_between-some a [] h k = absurd (k refl)
get_separator_between-some [] (y ∷ b) h k = absurd (h refl)
get_separator_between-some (x ∷ a) (y ∷ b) h k = refl

added-append :
    (keys : List (List ℕ)) (key : List ℕ) (bf : BloomFilter)
    → added (keys ++ key ∷ []) bf ≡ Filter.add key (added keys bf)
added-append [] key bf = refl
added-append (k ∷ keys) key bf = added-append keys key (Filter.add k bf)

pub Placed-append :
    (n : ℕ) (ss : List Segment) (s : Segment)
    → Placed n ss
    → s.offset ≡ n + length (all_bytes ss)
    → Placed n (ss ++ s ∷ [])
Placed-append n [] s p e = (omega (arith, e), tt)
Placed-append n (x ∷ ss) s (o, p) e = (
  o,
  Placed-append (n + length x.bytes) ss s p
      (omega (arith, e, length-append x.bytes (all_bytes ss))),
)

pub all_entries-append :
    (ss : List Segment) (s : Segment) → all_entries (ss ++ s ∷ []) ≡ all_entries ss ++ entries_of s
all_entries-append [] s = append-nil (entries_of s)
all_entries-append (x ∷ ss) s =
    ap (λ w. entries_of x ++ w) (all_entries-append ss s)
    ∙ sym (append_assoc (entries_of x) (all_entries ss) (entries_of s))

pub all_bytes-append :
    (ss : List Segment) (s : Segment) → all_bytes (ss ++ s ∷ []) ≡ all_bytes ss ++ s.bytes
all_bytes-append [] s = append-nil s.bytes
all_bytes-append (x ∷ ss) s =
    ap (λ w. x.bytes ++ w) (all_bytes-append ss s)
    ∙ sym (append_assoc x.bytes (all_bytes ss) s.bytes)

append-some : (xs : List Kv) (kv : Kv) → (x : Kv) × (more : List Kv) × (xs ++ kv ∷ [] ≡ x ∷ more)
append-some [] kv = (kv, [], refl)
append-some (x ∷ xs) kv = (x, xs ++ kv ∷ [], refl)

-- An entry is put into the block that is open.
pub put_data-IsSegmented :
    (m : ℕ) (key : List ℕ) (kv : Kv) (w : SstWriter) (kvs : List Kv)
    → (h : IsSegmented m key w kvs) → (index : List Index) → index ≡ full_index key h.closed
    → (index_block : Block)
    → IsSegmented m key
        (record w {
          index = index;
          index_block = index_block;
          data_block = append kv w.data_block;
          filter = Filter.add kv.key w.filter;
          prev_key = kv.key;
        })
        (kvs ++ kv ∷ [])
unfolding append
put_data-IsSegmented m key kv w kvs h index e index_block = record {
  closed = h.closed;
  current = h.current ++ kv ∷ [];
  whole =
      sym (append_assoc (all_entries h.closed) h.current (kv ∷ []))
      ∙ ap (λ l. l ++ kv ∷ []) h.whole;
  bytes = h.bytes;
  placed = h.placed;
  each = h.each;
  filters = h.filters;
  holds = append-Holds w.data_block h.current kv h.holds;
  count = omega (arith, h.count, length-append h.current (kv ∷ []));
  filter =
      ap (Filter.add kv.key) h.filter
      ∙ sym (added-append (keys_of h.current) kv.key (empty_filter m))
      ∙ ap (λ l. added l (empty_filter m)) (sym (map-append (λ x. x.key) h.current (kv ∷ [])));
  prev = sym (last_key-append [] kvs kv);
  stage = let (x, more, some_entry) = append-some h.current kv in in_block x more some_entry e;
}
