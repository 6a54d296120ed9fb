-- ===== src/Lsm/Node/Closing.antt =====
-- The blocks of a table that is written to its end.
use mathlib.Core.List.{append-nil, map-append}
use mathlib.Core.Path.{subst}
use yukino_go.Base.{
  ℕ, ◌%◌, ◌^◌, ◌<◌, ◌≡◌, ◌≢◌, inl, refl, sym, ap, ◌∙◌, arith, true, false, List, [], ◌∷◌, ◌++◌, map,
  All-append, In, length, insert, nat_eq, nat_beq, ok,
}
use yukino_go.Lsm.Wal.{Kv}
use yukino_go.Lsm.Block.{append, flush_to, clear}
use yukino_go.Lsm.Block.Coded.{Coded, last_key}
use yukino_go.Lsm.Filter as Filter
use yukino_go.Lsm.Filter.{BloomFilter, hash, key_len, hash_key}
use yukino_go.Lsm.Filter.Exist.{added, In-added, In-length, hash-length, added-m}
use yukino_go.Lsm.Table.{
  Index, SstWriter, less_one, get_separator_between, index_kv, insert_index, close_block,
  refresh_block, put_entry,
}
use yukino_go.Lsm.Table.Writing.{put_all, put_all-append}
use yukino_go.Lsm.Node.Segments.{
  Segment, index_of, filter_of, all_entries, keys_of, empty_filter, IsSegment, full_index, in_block,
  fresh, between, IsSegmented, get_separator_between-nil, get_separator_between-some, Placed-append,
  all_entries-append, all_bytes-append, put_data-IsSegmented,
}

pub put_entry-IsSegmented :
    (m : ℕ) (key : List ℕ) (kv : Kv) (w : SstWriter) (kvs : List Kv)
    → kv.key ≢ []
    → (kvs ≡ [] → kv.key ≡ key)
    → IsSegmented m key w kvs
    → IsSegmented m key (put_entry kv w) (kvs ++ kv ∷ [])
unfolding put_entry insert_index
put_entry-IsSegmented m key kv w kvs named first h = elim h.stage [
  | in_block x more some_entry e ↦
      let later : nat_beq w.data_block.entries_cnt 0 ≡ false =
        ground (arith, h.count, ap length some_entry) in
      rw later (put_data-IsSegmented m key kv w kvs h w.index e w.index_block)
  | fresh none_open none_closed no_index no_offset no_size ↦
      let none_yet : kvs ≡ [] =
        sym h.whole ∙ ap (λ l. l ++ h.current) (ap all_entries none_closed) ∙ none_open in
      let begins : w.prev_key ≡ [] = h.prev ∙ ap (last_key []) none_yet in
      let at_start : nat_beq w.data_block.entries_cnt 0 ≡ true =
        ground (arith, h.count, ap length none_open) in
      let i : Index = record {
        key = get_separator_between w.prev_key kv.key;
        prev_block_offset = w.prev_block_offset;
        prev_block_size = w.prev_block_size;
      } in
      let low : get_separator_between w.prev_key kv.key ≡ less_one key =
        ap (λ a. get_separator_between a kv.key) begins
        ∙ get_separator_between-nil kv.key
        ∙ ap less_one (first none_yet) in
      let index : w.index ++ i ∷ [] ≡ full_index key h.closed =
        rw (no_index, none_closed, low, no_offset, no_size) in
      rw at_start (
        put_data-IsSegmented m key kv w kvs h (w.index ++ i ∷ []) index
          (append (index_kv i) w.index_block))
  | between none_open older e ↦
      let at_start : nat_beq w.data_block.entries_cnt 0 ≡ true =
        ground (arith, h.count, ap length none_open) in
      let i : Index = record {
        key = get_separator_between w.prev_key kv.key;
        prev_block_offset = w.prev_block_offset;
        prev_block_size = w.prev_block_size;
      } in
      let index : w.index ++ i ∷ [] ≡ full_index key h.closed =
        rw (get_separator_between-some w.prev_key kv.key older named) e in
      rw at_start (
        put_data-IsSegmented m key kv w kvs h (w.index ++ i ∷ []) index
          (append (index_kv i) w.index_block))
]

pub not_empty : (xs : List Kv) (kv : Kv) (more : List Kv) → xs ++ kv ∷ more ≢ []
not_empty [] kv more h = cc
not_empty (x ∷ xs) kv more h = cc

last_key-entries :
    (low : List ℕ) (xs : List Kv) (kv : Kv) (more : List Kv)
    → last_key low (xs ++ kv ∷ more) ≡ last_key kv.key more
last_key-entries low [] kv more = refl
last_key-entries low (x ∷ xs) kv more = last_key-entries x.key xs kv more

close_block-IsSegmented :
    (m : ℕ) (key : List ℕ) (w : SstWriter) (kvs : List Kv) (h : IsSegmented m key w kvs) (kv : Kv)
    (more : List Kv)
    → h.current ≡ kv ∷ more
    → w.prev_key ≢ []
    → w.index ≡ full_index key h.closed
    → (bitmap : List ℕ) → hash w.filter ≡ ok bitmap
    → (h' : IsSegmented m key (close_block bitmap w) kvs) × (h'.current ≡ [])
unfolding close_block flush_to clear Filter.reset
close_block-IsSegmented m key w kvs h kv more some_entry older index bitmap e =
    let i : Index = record {
      key = w.prev_key;
      prev_block_offset = length w.data_buf;
      prev_block_size = length w.data_block.record_bytes;
    } in
    let e0 : Index = record { key = less_one key; prev_block_offset = 0; prev_block_size = 0 } in
    let last : w.prev_key ≡ last_key kv.key more =
      h.prev
      ∙ ap (last_key []) (sym h.whole ∙ ap (λ l. all_entries h.closed ++ l) some_entry)
      ∙ last_key-entries [] (all_entries h.closed) kv more in
    let s : Segment = record {
      offset = length w.data_buf;
      first = kv;
      more = more;
      bytes = w.data_block.record_bytes;
      bitmap = bitmap;
    } in
    let h' : IsSegmented m key (close_block bitmap w) kvs = record {
      closed = h.closed ++ s ∷ [];
      current = [];
      whole =
          append-nil (all_entries (h.closed ++ s ∷ []))
          ∙ all_entries-append h.closed s
          ∙ ap (λ l. all_entries h.closed ++ l) (sym some_entry)
          ∙ h.whole;
      bytes = ap (λ b. b ++ w.data_block.record_bytes) h.bytes ∙ sym (all_bytes-append h.closed s);
      placed = Placed-append 0 h.closed s h.placed (omega (arith, ap length h.bytes));
      each = All-append (IsSegment m) h.closed (s ∷ []) h.each (
        (
          subst (λ l. Coded [] l w.data_block.record_bytes) some_entry h.holds.coded,
          ap hash (ap (λ l. added (keys_of l) (empty_filter m)) (sym some_entry) ∙ sym h.filter)
              ∙ e,
        ),
        tt,
      );
      filters =
          ap (insert (length w.data_buf) bitmap) h.filters
          ∙ sym (put_all-append (map filter_of h.closed) (length w.data_buf) bitmap [])
          ∙ ap (λ l. put_all l []) (sym (map-append filter_of h.closed (s ∷ [])));
      holds = record { coded = refl; last = refl };
      count = refl;
      filter =
          ap (λ n. record { m = n; hashed_keys = [] })
            (ap (λ f. f.m) h.filter ∙ added-m (keys_of h.current) (empty_filter m));
      prev = h.prev;
      stage = between refl older (
          ap (λ l. l ++ i ∷ []) index
          ∙ ap (λ l. e0 ∷ l)
              ((ap (λ k. map index_of h.closed ++ record i { key = k } ∷ []) last)
                ∙ sym (map-append index_of h.closed (s ∷ []))));
    } in
    (h', refl)

-- After `refreshBlock` no block is open.
pub refresh_block-IsSegmented :
    (m : ℕ) (key : List ℕ) (w : SstWriter) (kvs : List Kv)
    → 0 < m % 2 ^ 32
    → (kvs ≢ [] → w.prev_key ≢ [])
    → (h : IsSegmented m key w kvs)
    → (w' : SstWriter) × (refresh_block w ≡ ok w')
      × (h' : IsSegmented m key w' kvs) × (h'.current ≡ [])
unfolding refresh_block
refresh_block-IsSegmented m key w kvs divisor older h = elim h.stage [
  | in_block kv more some_entry index ↦
      let m_same : w.filter.m ≡ m =
        ap (λ f. f.m) h.filter ∙ added-m (keys_of h.current) (empty_filter m) in
      let hashed : In (hash_key kv.key) w.filter.hashed_keys =
        rw (h.filter, some_entry)
          (In-added kv.key (keys_of (kv ∷ more)) (empty_filter m) (inl refl)) in
      let some_key = In-length (hash_key kv.key) w.filter.hashed_keys hashed in
      let (bitmap, e, len) = hash-length w.filter (rw m_same divisor) some_key in
      let some_kvs : kvs ≢ [] = λ none_there.
        not_empty (all_entries h.closed) kv more
          (ap (λ l. all_entries h.closed ++ l) (sym some_entry) ∙ h.whole ∙ none_there) in
      let (h', none_open) =
        close_block-IsSegmented m key w kvs h kv more some_entry (older some_kvs) index bitmap e in
      (close_block bitmap w, rw (some_key, e), h', none_open)
  | fresh none_open none_closed no_index no_offset no_size ↦
      (w, rw (h.filter, none_open), h, none_open)
  | between none_open some_prev e ↦ (w, rw (h.filter, none_open), h, none_open)
]
