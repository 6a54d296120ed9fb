-- ===== src/Lsm/Node/Lookup.antt =====
-- A key of a table that was written to its end is found.
use mathlib.Core.Path.{subst}
use yukino_go.Base.{
  ℕ, suc, ◌+◌, ◌-◌, ◌/◌, ◌%◌, ◌^◌, ◌≤◌, ◌<◌, ◌≡◌, ◌⊎◌, inl, inr, refl, sym, ap, ◌∙◌, arith, Bool,
  true, false, Bool-cases, Option-cases, none, some, List, [], ◌∷◌, ◌++◌, map, All, In, length,
  nat_eq, if◌then◌else◌, nat_beq, ltb, ltb→lt, Res, ok, err, panic, ◌>>=◌,
}
use yukino_go.Lsm.Wal.{Kv}
use yukino_go.Lsm.Wal.Restore.{IsSized}
use yukino_go.Lsm.Block.{flush_to}
use yukino_go.Lsm.Filter as Filter
use yukino_go.Lsm.Filter.{BloomFilter, exist, hash, hash_key}
use yukino_go.Lsm.Filter.Exist.{added}
use yukino_go.Lsm.Table.{
  Index, SstWriter, new_sst_writer, less_one, close_table, footer, footer_numbers, finish, Finished,
}
use yukino_go.Lsm.Table.Writing.{put_all, append_all}
use yukino_go.Lsm.Table.RoundTrip.{table_size, finish-ReadsBack}
use yukino_go.Lsm.Node.{Node, binary_search_index, find_value, get_at, node_get}
use yukino_go.Lsm.Node.Order.{Ascending, find_value-some}
use yukino_go.Lsm.Node.Search.{binary_search_index-In}
use yukino_go.Lsm.Node.Segments.{
  Segment, index_of, filter_of, all_entries, all_bytes, Placed, empty_filter, IsSegment, full_index,
}
use yukino_go.Lsm.Node.Complete.{IsTable, append_all-IsTable}
use yukino_go.Lsm.Node.Reading.{node_of, ok_inj, if_same, IsFile, at_index-In, at_index-none}

-- What `Finish` leaves of the writer.
abbrev Leaves : SstWriter → Finished → Type 0
Leaves w out =
    (out.index ≡ w.index)
    × (out.block_to_filter ≡ w.block_to_filter)
    × (rest : List ℕ) × (out.file ≡ w.data_buf ++ rest)

end-Leaves :
    (w : SstWriter) (table_bytes : ℕ) (filter_buf index_buf : List ℕ)
    (end : Res Filter.Error (List ℕ)) (out : Finished)
    → (end >>= λ end. ok (record {
      table_bytes = table_bytes;
      block_to_filter = w.block_to_filter;
      index = w.index;
      file = w.data_buf ++ (filter_buf ++ (index_buf ++ end));
    }))
      ≡ ok out
    → Leaves w out
end-Leaves w table_bytes filter_buf index_buf (err e) out h = cc
end-Leaves w table_bytes filter_buf index_buf panic out h = cc
end-Leaves w table_bytes filter_buf index_buf (ok end) out h =
    let same : record {
      table_bytes = table_bytes;
      block_to_filter = w.block_to_filter;
      index = w.index;
      file = w.data_buf ++ (filter_buf ++ (index_buf ++ end));
    }
        ≡ out =
      ok_inj h in
    (
      sym (ap (λ o. o.index) same),
      sym (ap (λ o. o.block_to_filter) same),
      filter_buf ++ (index_buf ++ end),
      sym (ap (λ o. o.file) same),
    )

finish-Leaves :
    (n : ℕ) (w w' : SstWriter) (out : Finished)
    → close_table w ≡ ok w'
    → finish n w ≡ ok out
    → Leaves w' out
unfolding finish
finish-Leaves n w w' out e h =
    let filter_buf = (flush_to w'.filter_buf w'.filter_block).0 in
    let index_buf = (flush_to w'.index_buf w'.index_block).0 in
    end-Leaves w' (length w'.data_buf + length filter_buf + length index_buf) filter_buf index_buf
      (footer n (footer_numbers w'.data_buf filter_buf index_buf)) out (rw e at h)

some_block :
    (ss : List Segment) (kv : Kv) (kvs : List Kv)
    → all_entries ss ≡ kv ∷ kvs
    → (s : Segment) × (more : List Segment) × (ss ≡ s ∷ more)
some_block [] kv kvs h = cc
some_block (s ∷ ss) kv kvs h = (s, ss, refl)

module _ (limit footer_size m : ℕ) (spare : List ℕ → List ℕ) (others : List (List ℕ))
    (short : limit < 2 ^ 56) (divisor : 0 < m % 2 ^ 32) where
  node_get-get_at :
      (key : List ℕ) (i : Index) (found : Bool) (n : Node)
      → nat_beq (length n.index) 0 ≡ false
      → binary_search_index (length n.index) key 0 (length n.index - 1) n.index ≡ ok (i, found)
      → node_get limit spare footer_size (added others (empty_filter m)) key n ≡ (
          if found
          then get_at limit spare footer_size (added others (empty_filter m)) key i n
          else ok none)
  unfolding node_get
  node_get-get_at key i found n some_index e = rw (some_index, e)

  node_get-IsFile :
      (low : List ℕ) (s : Segment) (ss : List Segment) (out : Finished) (key : List ℕ)
      → IsFile limit m (s ∷ ss) out
      → Ascending low (all_entries (s ∷ ss))
      → out.index
        ≡ record { key = low; prev_block_offset = 0; prev_block_size = 0 } ∷ map index_of (s ∷ ss)
      → node_get limit spare footer_size (added others (empty_filter m)) key (node_of out)
        ≡ ok (find_value key (all_entries (s ∷ ss)))
  node_get-IsFile low s ss out key h a whole =
      let some_index : nat_beq (length out.index) 0 ≡ false = ground (arith, ap length whole) in
      elim (Option-cases (find_value key (all_entries (s ∷ ss)))) [
        | inl absent ↦
            let (i, found, e, inside) =
              binary_search_index-In (length out.index) key 0 (length out.index - 1) out.index
                (omega arith) (ground arith) (ground arith) in
            let nothing =
              at_index-none limit footer_size m spare others short divisor s ss low key out i h
                absent (subst (In i) whole inside) in
            node_get-get_at key i found (node_of out) some_index e
            ∙ (if_same found
                (get_at limit spare footer_size (added others (empty_filter m)) key i (node_of out))
                nothing)
            ∙ ap ok (sym absent)
        | inr (value, there) ↦
            let (kv, inside, same, v) = find_value-some key (all_entries (s ∷ ss)) value there in
            let (i, e, found) =
              at_index-In limit footer_size m spare others short divisor low (s ∷ ss) out kv h a
                inside in
            let e' : binary_search_index (length out.index) kv.key 0 (length out.index - 1)
                  out.index
                ≡ ok (i, true) =
              subst (λ l. binary_search_index (length l) kv.key 0 (length l - 1) l ≡ ok (i, true))
                (sym whole) e in
            subst
              (λ k.
                node_get limit spare footer_size (added others (empty_filter m)) k (node_of out)
                ≡ ok (find_value key (all_entries (s ∷ ss))))
              same
              (node_get-get_at kv.key i true (node_of out) some_index e'
                ∙ found
                ∙ ap (λ v. ok (some v)) v
                ∙ ap ok (sym there))
      ]

  node_get-IsTable :
      (first : Kv) (kvs : List Kv) (w : SstWriter) (out : Finished) (key : List ℕ)
      → (t : IsTable m first.key w (first ∷ kvs)) → Leaves w out
      → length w.data_buf ≤ limit
      → All (IsSized limit) (first ∷ kvs)
      → Ascending (less_one first.key) (first ∷ kvs)
      → node_get limit spare footer_size (added others (empty_filter m)) key (node_of out)
        ≡ ok (find_value key (first ∷ kvs))
  node_get-IsTable first kvs w out key t (index, filters, rest, file) small sized a =
      let (s, ss, blocks) = some_block t.closed first kvs t.whole in
      let whole : all_entries (s ∷ ss) ≡ first ∷ kvs = ap all_entries (sym blocks) ∙ t.whole in
      let bytes : w.data_buf ≡ all_bytes (s ∷ ss) = t.bytes ∙ ap all_bytes blocks in
      let h : IsFile limit m (s ∷ ss) out = record {
        each = subst (All (IsSegment m)) blocks t.each;
        placed = subst (Placed 0) blocks t.placed;
        small = omega (arith, ap length bytes);
        filters = filters ∙ t.filters ∙ ap (λ l. put_all (map filter_of l) []) blocks;
        rest = rest;
        file = file ∙ ap (λ b. b ++ rest) bytes;
        sized = subst (All (IsSized limit)) (sym whole) sized;
      } in
      node_get-IsFile (less_one first.key) s ss out key h
        (subst (Ascending (less_one first.key)) (sym whole) a)
        (index ∙ t.index ∙ ap (full_index first.key) blocks)
      ∙ ap (λ l. ok (find_value key l)) whole

-- Entries that fit in slices, with ascending keys of which the first is above what the writer puts
-- before the blocks, are appended to a new table, which is then closed; and if it takes no more
-- bytes than a slice can have, `Finish` returns, and the lookup of any key in the table returns the
-- value that the entries have for it, and finds nothing where they have none, whatever keys the
-- filter that looks for it has.
pub node_get-finish :
    (limit footer_size block_size m : ℕ) (spare : List ℕ → List ℕ) (others : List (List ℕ))
    (first : Kv) (kvs : List Kv) (key : List ℕ)
    → 20 ≤ limit
    → limit < 2 ^ 56
    → 32 ≤ footer_size
    → 0 < m % 2 ^ 32
    → suc ((m + 7) / 8) ≤ limit
    → All (IsSized limit) (first ∷ kvs)
    → Ascending (less_one first.key) (first ∷ kvs)
    → (w w' : SstWriter) × (append_all block_size (first ∷ kvs) (new_sst_writer m) ≡ ok w)
      × (close_table w ≡ ok w')
      × ((limit < table_size w')
          ⊎ ((out : Finished) × (finish footer_size w ≡ ok out)
              × (node_get limit spare footer_size (added others (empty_filter m)) key (node_of out)
                  ≡ ok (find_value key (first ∷ kvs)))))
node_get-finish limit footer_size block_size m spare others first kvs key room short footer_room
      divisor fits sized a =
    let (w, w', e, e', finished) =
      finish-ReadsBack limit footer_size block_size m spare (first ∷ kvs) room short footer_room
        divisor fits sized in
    let (v, v', c, c', t) = append_all-IsTable m block_size first kvs divisor a in
    let same : v ≡ w = ok_inj (sym c ∙ e) in
    let same' : v' ≡ w' = ok_inj (sym c' ∙ ap close_table same ∙ e') in
    let t' = subst (λ x. IsTable m first.key x (first ∷ kvs)) same' t in
    elim finished [
      | inl large ↦ (w, w', e, e', inl large)
      | inr (out, end, reads) ↦ elim (Bool-cases (ltb limit (table_size w'))) [
        | inl large ↦ (w, w', e, e', inl (ltb→lt limit (table_size w') large))
        | inr small ↦
            let found =
              node_get-IsTable limit footer_size m spare others short divisor first kvs w' out key
                t' (finish-Leaves footer_size w w' out e' end) (ground arith) sized a in
            (w, w', e, e', inr (out, end, found))
      ]
    ]
