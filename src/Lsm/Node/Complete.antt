-- ===== src/Lsm/Node/Complete.antt =====
-- Entries are appended to a new writer, and the table is closed.
use mathlib.Core.List.{append_assoc, append-nil}
use mathlib.Core.Path.{subst}
use yukino_go.Base.{
  ℕ, ◌%◌, ◌^◌, ◌<◌, ◌≡◌, ◌≢◌, inl, inr, refl, sym, ap, ◌∙◌, true, Bool-cases, List, [], ◌∷◌, ◌++◌,
  map, All, nat_eq, leb, ok,
}
use yukino_go.Lsm.Wal.{Kv}
use yukino_go.Lsm.Block.{size}
use yukino_go.Lsm.Block.Coded.{last_key, last_key-append}
use yukino_go.Lsm.Table.{
  SstWriter, new_sst_writer, less_one, get_separator_between, insert_index, put_entry, append_kv,
  close_table,
}
use yukino_go.Lsm.Table.Writing.{put_all, append_all}
use yukino_go.Lsm.Node.{bytes_ltb}
use yukino_go.Lsm.Node.Order.{Ascending}
use yukino_go.Lsm.Node.Segments.{
  Segment, filter_of, all_entries, all_bytes, Placed, IsSegment, full_index, pending, in_block,
  fresh, between, IsSegmented, new_sst_writer-IsSegmented, get_separator_between-some,
}
use yukino_go.Lsm.Node.Closing.{put_entry-IsSegmented, not_empty, refresh_block-IsSegmented}

-- Every key is above the one before, so it is not empty.
Ascending-named : (low key : List ℕ) → bytes_ltb low key ≡ true → key ≢ []
unfolding bytes_ltb
Ascending-named [] key h e = let bad = rw e at h in cc
Ascending-named (x ∷ low) key h e = let bad = rw e at h in cc

last_key-named :
    (key : List ℕ) (kvs : List Kv) → key ≢ [] → Ascending key kvs → last_key key kvs ≢ []
last_key-named key [] named h = named
last_key-named key (kv ∷ kvs) named (l, h) =
    last_key-named kv.key kvs (Ascending-named key kv.key l) h

append_kv-IsSegmented :
    (m block_size : ℕ) (key : List ℕ) (kv : Kv) (w : SstWriter) (kvs : List Kv)
    → 0 < m % 2 ^ 32
    → kv.key ≢ []
    → (kvs ≡ [] → kv.key ≡ key)
    → IsSegmented m key w kvs
    → (w' : SstWriter) × (append_kv block_size kv w ≡ ok w') × IsSegmented m key w' (kvs ++ kv ∷ [])
unfolding append_kv
append_kv-IsSegmented m block_size key kv w kvs divisor named first h =
    let p = put_entry-IsSegmented m key kv w kvs named first h in
    let older : (put_entry kv w).prev_key ≢ [] =
      λ e. named (sym (last_key-append [] kvs kv) ∙ sym p.prev ∙ e) in
    elim (Bool-cases (leb block_size (size (put_entry kv w).data_block))) [
      | inl full ↦
          let (w', e, h', none_open) =
            refresh_block-IsSegmented m key (put_entry kv w) (kvs ++ kv ∷ []) divisor
              (λ some_kvs. older) p in
          (w', rw full e, h')
      | inr room ↦ (put_entry kv w, rw room, p)
    ]

append_all-later :
    (m block_size : ℕ) (key low : List ℕ) (kvs : List Kv) (w : SstWriter) (before : List Kv)
    → 0 < m % 2 ^ 32
    → before ≢ []
    → Ascending low kvs
    → IsSegmented m key w before
    → (w' : SstWriter) × (append_all block_size kvs w ≡ ok w')
      × IsSegmented m key w' (before ++ kvs)
append_all-later m block_size key low [] w before divisor some_kvs a h =
    (w, refl, subst (IsSegmented m key w) (sym (append-nil before)) h)
append_all-later m block_size key low (kv ∷ kvs) w before divisor some_kvs (l, a) h =
    let (w1, e1, h1) =
      append_kv-IsSegmented m block_size key kv w before divisor (Ascending-named low kv.key l)
        (λ none_there. absurd (some_kvs none_there)) h in
    let (w2, e2, h2) =
      append_all-later m block_size key kv.key kvs w1 (before ++ kv ∷ []) divisor
        (not_empty before kv []) a h1 in
    (w2, rw e1 e2, subst (IsSegmented m key w2) (append_assoc before (kv ∷ []) kvs) h2)

-- What `Finish` finds: a table whose index is complete.
pub record IsTable (m : ℕ) (key : List ℕ) (w : SstWriter) (kvs : List Kv) : Type 0 where
  pub closed : List Segment
  pub whole : all_entries closed ≡ kvs
  pub bytes : w.data_buf ≡ all_bytes closed
  pub placed : Placed 0 closed
  pub each : All (IsSegment m) closed
  pub filters : w.block_to_filter ≡ put_all (map filter_of closed) []
  pub index : w.index ≡ full_index key closed

pub append_all-IsTable :
    (m block_size : ℕ) (kv : Kv) (kvs : List Kv)
    → 0 < m % 2 ^ 32
    → Ascending (less_one kv.key) (kv ∷ kvs)
    → (w w' : SstWriter) × (append_all block_size (kv ∷ kvs) (new_sst_writer m) ≡ ok w)
      × (close_table w ≡ ok w')
      × IsTable m kv.key w' (kv ∷ kvs)
unfolding close_table insert_index
append_all-IsTable m block_size kv kvs divisor (l, a) =
    let named = Ascending-named (less_one kv.key) kv.key l in
    let (w1, e1, h1) =
      append_kv-IsSegmented m block_size kv.key kv (new_sst_writer m) [] divisor named
        (λ none_there. refl) (new_sst_writer-IsSegmented m kv.key) in
    let (w2, e2, h2) =
      append_all-later m block_size kv.key kv.key kvs w1 (kv ∷ []) divisor (λ e. cc) a h1 in
    let older : w2.prev_key ≢ [] = λ e. last_key-named kv.key kvs named a (sym h2.prev ∙ e) in
    let (w3, e3, h3, none_open) =
      refresh_block-IsSegmented m kv.key w2 (kv ∷ kvs) divisor (λ some_kvs. older) h2 in
    elim h3.stage [
      | in_block x more some_entry index ↦
          let bad : [] ≡ x ∷ more = sym none_open ∙ some_entry in cc
      | fresh none_current none_closed no_index no_offset no_size ↦
          let bad : kv ∷ kvs ≡ [] =
            sym h3.whole ∙ ap (λ l. l ++ h3.current) (ap all_entries none_closed) ∙ none_open in
          cc
      | between none_current some_prev index ↦
          let whole : all_entries h3.closed ≡ kv ∷ kvs =
            sym (append-nil (all_entries h3.closed))
            ∙ ap (λ l. all_entries h3.closed ++ l) (sym none_open)
            ∙ h3.whole in
          let complete : w3.index
                ++ record (pending w3) { key = get_separator_between w3.prev_key w3.prev_key } ∷ []
              ≡ full_index kv.key h3.closed =
            ap (λ k. w3.index ++ record (pending w3) { key = k } ∷ [])
              (get_separator_between-some w3.prev_key w3.prev_key some_prev some_prev)
            ∙ index in
          (
            w2,
            insert_index w3.prev_key w3,
            rw e1 e2,
            rw e3,
            record {
              closed = h3.closed;
              whole = whole;
              bytes = h3.bytes;
              placed = h3.placed;
              each = h3.each;
              filters = h3.filters;
              index = complete;
            },
          )
    ]
