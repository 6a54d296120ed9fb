-- ===== src/Lsm/Table/Writing.antt =====
-- What a writer holds while keys are appended.
use mathlib.Core.List.{append_assoc, append-nil, map-append}
use mathlib.Core.Path.{subst}
use yukino_go.Base.{
  ℕ, suc, ◌+◌, ◌/◌, ◌%◌, ◌^◌, ◌≤◌, ◌<◌, ◌≡◌, ◌⊎◌, inl, inr, refl, sym, ap, ◌∙◌, arith, true,
  Bool-cases, List, [], ◌∷◌, ◌++◌, map, All, All-append, length, length-append, insert, nat_eq,
  nat_beq, leb, Res, ok, ◌>>=◌,
}
use yukino_go.Lsm.Wal.{Kv}
use yukino_go.Lsm.Wal.Restore.{IsSized}
use yukino_go.Lsm.Block.{append, shared_prefix_len, encode_entry, flush_to, clear, size}
use yukino_go.Lsm.Block.RoundTrip.{IsShared, shared_prefix_len-IsShared}
use yukino_go.Lsm.Block.Coded.{Coded, Coded-append, last_key, last_key-append, Holds, append-Holds}
use yukino_go.Lsm.Filter as Filter
use yukino_go.Lsm.Filter.{hash_key, BloomFilter, hash, key_len, reset}
use yukino_go.Lsm.Filter.Exist.{hash-length}
use yukino_go.Lsm.Table.{
  Index, SstWriter, new_sst_writer, less_one, get_separator_between, index_kv, insert_index,
  filter_kv, close_block, refresh_block, put_entry, append_kv,
}

length-less_one : (b : List ℕ) → length (less_one b) ≡ length b
unfolding less_one
length-less_one [] = refl
length-less_one (y ∷ []) = refl
length-less_one (y ∷ z ∷ b) = ap suc (length-less_one (z ∷ b))

length-get_separator_between :
    (limit : ℕ) (a b : List ℕ)
    → length a ≤ limit
    → length b ≤ limit
    → length (get_separator_between a b) ≤ limit
unfolding get_separator_between
length-get_separator_between limit a [] h k = omega arith
length-get_separator_between limit [] (y ∷ b) h k = omega (arith, length-less_one (y ∷ b))
length-get_separator_between limit (x ∷ a) (y ∷ b) h k = h

-- The map after these filters.
abbrev pub put_all : List (ℕ × List ℕ) → List (ℕ × List ℕ) → List (ℕ × List ℕ)
put_all [] filters = filters
put_all ((offset, bitmap) ∷ more) filters = put_all more (insert offset bitmap filters)

pub put_all-append :
    (fs : List (ℕ × List ℕ)) (offset : ℕ) (bitmap : List ℕ) (filters : List (ℕ × List ℕ))
    → put_all (fs ++ (offset, bitmap) ∷ []) filters ≡ insert offset bitmap (put_all fs filters)
put_all-append [] offset bitmap filters = refl
put_all-append ((o, b) ∷ fs) offset bitmap filters =
    put_all-append fs offset bitmap (insert o b filters)

-- An entry of the index, or a filter, of a table that has `n` bytes of data.
abbrev pub IsIndex : ℕ → ℕ → Index → Type 0
IsIndex limit n i = (length i.key ≤ limit) × (i.prev_block_offset + i.prev_block_size ≤ n)

abbrev pub IsFilter : ℕ → ℕ → ℕ × List ℕ → Type 0
IsFilter limit n f = (f.0 ≤ n) × (length f.1 ≤ limit)

All-more :
    {A : Type 0} {P Q : A → Type 0} → ((a : A) → P a → Q a) → (xs : List A) → All P xs → All Q xs
All-more f [] h = tt
All-more f (x ∷ xs) (h, more) = (f x h, All-more f xs more)

-- A writer to which these entries were appended.
pub record IsWriting (m limit : ℕ) (w : SstWriter) (kvs : List Kv) : Type 0 where
  pub filters : List (ℕ × List ℕ)
  pub coded : Coded [] kvs (w.data_buf ++ w.data_block.record_bytes)
  pub block_prev : (w.data_block.prev_key ≡ []) ⊎ (w.data_block.prev_key ≡ last_key [] kvs)
  pub prev_sized : length w.prev_key ≤ limit
  pub index_holds : Holds w.index_block (map index_kv w.index)
  pub index_small : All (IsIndex limit (length w.data_buf)) w.index
  pub filter_holds : Holds w.filter_block (map filter_kv filters)
  pub filters_small : All (IsFilter limit (length w.data_buf)) filters
  pub filter_map : w.block_to_filter ≡ put_all filters []
  pub last_block : w.prev_block_offset + w.prev_block_size ≤ length w.data_buf
  pub no_filter_buf : w.filter_buf ≡ []
  pub no_index_buf : w.index_buf ≡ []
  pub bits : w.filter.m ≡ m
  pub flushed : nat_beq (key_len w.filter) 0 ≡ true → w.data_block.record_bytes ≡ []

new_sst_writer-IsWriting : (m limit : ℕ) → IsWriting m limit (new_sst_writer m) []
new_sst_writer-IsWriting m limit = record {
  filters = [];
  coded = refl;
  block_prev = inl refl;
  prev_sized = omega arith;
  index_holds = record { coded = refl; last = refl };
  index_small = tt;
  filter_holds = record { coded = refl; last = refl };
  filters_small = tt;
  filter_map = refl;
  last_block = omega arith;
  no_filter_buf = refl;
  no_index_buf = refl;
  bits = refl;
  flushed = λ e. refl;
}

pub insert_index-IsWriting :
    (m limit : ℕ) (key : List ℕ) (w : SstWriter) (kvs : List Kv)
    → length key ≤ limit
    → IsWriting m limit w kvs
    → IsWriting m limit (insert_index key w) kvs
unfolding insert_index
insert_index-IsWriting m limit key w kvs k h =
    let i : Index = record {
      key = get_separator_between w.prev_key key;
      prev_block_offset = w.prev_block_offset;
      prev_block_size = w.prev_block_size;
    } in
    record {
      filters = h.filters;
      coded = h.coded;
      block_prev = h.block_prev;
      prev_sized = h.prev_sized;
      index_holds =
          subst (Holds (append (index_kv i) w.index_block))
            (sym (map-append index_kv w.index (i ∷ [])))
            (append-Holds w.index_block (map index_kv w.index) (index_kv i) h.index_holds);
      index_small =
          All-append (IsIndex limit (length w.data_buf)) w.index (i ∷ []) h.index_small
            ((length-get_separator_between limit w.prev_key key h.prev_sized k, h.last_block), tt);
      filter_holds = h.filter_holds;
      filters_small = h.filters_small;
      filter_map = h.filter_map;
      last_block = h.last_block;
      no_filter_buf = h.no_filter_buf;
      no_index_buf = h.no_index_buf;
      bits = h.bits;
      flushed = h.flushed;
    }

close_block-IsWriting :
    (m limit : ℕ) (bitmap : List ℕ) (w : SstWriter) (kvs : List Kv)
    → length bitmap ≤ limit
    → IsWriting m limit w kvs
    → IsWriting m limit (close_block bitmap w) kvs
unfolding close_block flush_to clear
close_block-IsWriting m limit bitmap w kvs k h =
    let offset = length w.data_buf in
    let f : ℕ × List ℕ = (offset, bitmap) in
    let grown = length-append w.data_buf w.data_block.record_bytes in
    let n = length (w.data_buf ++ w.data_block.record_bytes) in
    record {
      filters = h.filters ++ f ∷ [];
      coded =
          subst (Coded [] kvs) (sym (append-nil (w.data_buf ++ w.data_block.record_bytes))) h.coded;
      block_prev = inl refl;
      prev_sized = h.prev_sized;
      index_holds = h.index_holds;
      index_small = All-more (λ i (a, b). (a, omega arith)) w.index h.index_small;
      filter_holds =
          subst (Holds (append (filter_kv f) w.filter_block))
            (sym (map-append filter_kv h.filters (f ∷ [])))
            (append-Holds w.filter_block (map filter_kv h.filters) (filter_kv f) h.filter_holds);
      filters_small =
          All-append (IsFilter limit n) h.filters (f ∷ [])
            (All-more (λ i (a, b). (omega arith, b)) h.filters h.filters_small)
            ((omega arith, k), tt);
      filter_map =
          ap (insert offset bitmap) h.filter_map ∙ sym (put_all-append h.filters offset bitmap []);
      last_block = omega arith;
      no_filter_buf = h.no_filter_buf;
      no_index_buf = h.no_index_buf;
      bits = h.bits;
      flushed = λ e. refl;
    }

-- After `refreshBlock` the block is empty.
pub refresh_block-IsWriting :
    (m limit : ℕ) (w : SstWriter) (kvs : List Kv)
    → 0 < m % 2 ^ 32
    → suc ((m + 7) / 8) ≤ limit
    → IsWriting m limit w kvs
    → (w' : SstWriter) × (refresh_block w ≡ ok w')
      × IsWriting m limit w' kvs
      × (w'.data_block.record_bytes ≡ [])
unfolding refresh_block close_block flush_to clear
refresh_block-IsWriting m limit w kvs divisor fits h =
    elim (Bool-cases (nat_beq (key_len w.filter) 0)) [
      | inl none_there ↦ (w, rw none_there, h, h.flushed none_there)
      | inr some_key ↦
          let (bitmap, e, len) = hash-length w.filter (rw h.bits divisor) some_key in
          let short : length bitmap ≤ limit = rw (len, h.bits) fits in
          (
            close_block bitmap w,
            rw (some_key, e),
            close_block-IsWriting m limit bitmap w kvs short h,
            refl,
          )
    ]

-- The prefix that the block's last key shares is one of the last key of the table.
block_prev-IsShared :
    (prev last key : List ℕ)
    → (prev ≡ []) ⊎ (prev ≡ last)
    → IsShared (shared_prefix_len prev key) last key
unfolding shared_prefix_len
block_prev-IsShared prev last key (inl e) = rw e (omega arith, omega arith, refl)
block_prev-IsShared prev last key (inr e) =
    subst (λ p. IsShared (shared_prefix_len prev key) p key) e (shared_prefix_len-IsShared prev key)

put_data-IsWriting :
    (m limit : ℕ) (kv : Kv) (w : SstWriter) (kvs : List Kv)
    → length kv.key ≤ limit
    → IsWriting m limit w kvs
    → IsWriting m limit
        (record w {
          data_block = append kv w.data_block;
          filter = Filter.add kv.key w.filter;
          prev_key = kv.key;
        })
        (kvs ++ kv ∷ [])
unfolding append Filter.add
put_data-IsWriting m limit kv w kvs k h =
    let n = shared_prefix_len w.data_block.prev_key kv.key in
    record {
      filters = h.filters;
      coded =
          subst (Coded [] (kvs ++ kv ∷ []))
            (append_assoc w.data_buf w.data_block.record_bytes (encode_entry n kv))
            (Coded-append [] kvs (w.data_buf ++ w.data_block.record_bytes) n kv h.coded
              (block_prev-IsShared w.data_block.prev_key (last_key [] kvs) kv.key h.block_prev));
      block_prev = inr (sym (last_key-append [] kvs kv));
      prev_sized = k;
      index_holds = h.index_holds;
      index_small = h.index_small;
      filter_holds = h.filter_holds;
      filters_small = h.filters_small;
      filter_map = h.filter_map;
      last_block = h.last_block;
      no_filter_buf = h.no_filter_buf;
      no_index_buf = h.no_index_buf;
      bits = h.bits;
      flushed =
          λ e. absurd (ground (arith, length-append w.filter.hashed_keys (hash_key kv.key ∷ [])));
    }

put_entry-IsWriting :
    (m limit : ℕ) (kv : Kv) (w : SstWriter) (kvs : List Kv)
    → length kv.key ≤ limit
    → IsWriting m limit w kvs
    → IsWriting m limit (put_entry kv w) (kvs ++ kv ∷ [])
unfolding put_entry
put_entry-IsWriting m limit kv w kvs k h = elim (Bool-cases (nat_beq w.data_block.entries_cnt 0)) [
  | inl first ↦ rw first (
      put_data-IsWriting m limit kv (insert_index kv.key w) kvs k
        (insert_index-IsWriting m limit kv.key w kvs k h))
  | inr later ↦ rw later (put_data-IsWriting m limit kv w kvs k h)
]

append_kv-IsWriting :
    (m limit block_size : ℕ) (kv : Kv) (w : SstWriter) (kvs : List Kv)
    → 0 < m % 2 ^ 32
    → suc ((m + 7) / 8) ≤ limit
    → length kv.key ≤ limit
    → IsWriting m limit w kvs
    → (w' : SstWriter) × (append_kv block_size kv w ≡ ok w') × IsWriting m limit w' (kvs ++ kv ∷ [])
unfolding append_kv
append_kv-IsWriting m limit block_size kv w kvs divisor fits k h =
    let p = put_entry-IsWriting m limit kv w kvs k h in
    elim (Bool-cases (leb block_size (size (put_entry kv w).data_block))) [
      | inl full ↦
          let (w', e, h', empty) =
            refresh_block-IsWriting m limit (put_entry kv w) (kvs ++ kv ∷ []) divisor fits p in
          (w', rw full e, h')
      | inr room ↦ (put_entry kv w, rw room, p)
    ]

-- `Append` of one entry after the other.
abbrev pub append_all : ℕ → List Kv → SstWriter → Res Filter.Error SstWriter
append_all block_size [] w = ok w
append_all block_size (kv ∷ kvs) w = append_kv block_size kv w >>= append_all block_size kvs

append_all-from :
    (m limit block_size : ℕ) (kvs : List Kv) (w : SstWriter) (before : List Kv)
    → 0 < m % 2 ^ 32
    → suc ((m + 7) / 8) ≤ limit
    → All (IsSized limit) kvs
    → IsWriting m limit w before
    → (w' : SstWriter) × (append_all block_size kvs w ≡ ok w')
      × IsWriting m limit w' (before ++ kvs)
append_all-from m limit block_size [] w before divisor fits sized h =
    (w, refl, subst (IsWriting m limit w) (sym (append-nil before)) h)
append_all-from m limit block_size (kv ∷ kvs) w before divisor fits ((k, v), sized) h =
    let (w1, e1, h1) = append_kv-IsWriting m limit block_size kv w before divisor fits k h in
    let (w2, e2, h2) =
      append_all-from m limit block_size kvs w1 (before ++ kv ∷ []) divisor fits sized h1 in
    (w2, rw e1 e2, subst (IsWriting m limit w2) (append_assoc before (kv ∷ []) kvs) h2)

pub append_all-IsWriting :
    (m limit block_size : ℕ) (kvs : List Kv)
    → 0 < m % 2 ^ 32
    → suc ((m + 7) / 8) ≤ limit
    → All (IsSized limit) kvs
    → (w : SstWriter) × (append_all block_size kvs (new_sst_writer m) ≡ ok w)
      × IsWriting m limit w kvs
append_all-IsWriting m limit block_size kvs divisor fits sized =
    append_all-from m limit block_size kvs (new_sst_writer m) [] divisor fits sized
      (new_sst_writer-IsWriting m limit)
