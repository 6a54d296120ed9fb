-- ===== src/Lsm/Node/Reading.antt =====
-- A block of a table's file is read, and a key is looked up in it.
use mathlib.Core.Path.{subst}
use mathlib.Core.List.{append_assoc, map-append}
use yukino_go.Base.{
  ℕ, suc, ◌+◌, ◌-◌, ◌/◌, ◌%◌, ◌^◌, ◌≤◌, ◌<◌, ◌≡◌, inl, inr, refl, sym, ap, ◌∙◌, arith, Bool, true,
  false, Option, none, some, List, [], ◌∷◌, ◌++◌, map, All, In, length, length-append, lookup,
  nat_eq, if◌then◌else◌, Res, ok,
}
use yukino_go.Lsm.{Error}
use yukino_go.Lsm.Wal.{Kv}
use yukino_go.Lsm.Wal.Restore.{IsSized}
use yukino_go.Lsm.Block.Coded.{length-Coded, read_block_data-Coded}
use yukino_go.Lsm.Filter.{exist, hash_key}
use yukino_go.Lsm.Filter.Exist.{
  added, added-m, exist-hash, exist-total, hash-length, In-added, In-length,
}
use yukino_go.Lsm.Table.{Index, Finished, new_sst_reader}
use yukino_go.Lsm.Table.Footer.{read_block-append}
use yukino_go.Lsm.Table.Writing.{put_all}
use yukino_go.Lsm.Node.{Node, binary_search_index, find_value, no_error, get_at}
use yukino_go.Lsm.Node.Order.{Ascending, Ascending-In, find_value-In}
use yukino_go.Lsm.Node.Search.{binary_search_index-append}
use yukino_go.Lsm.Node.Segments.{
  Segment, entries_of, index_of, filter_of, all_entries, all_bytes, Placed, keys_of, empty_filter,
  IsSegment,
}
use yukino_go.Lsm.Node.Finding.{
  index_of-In, find_value-none, segments-Found, Placed-offset, all_bytes-split, lookup-filters,
}

-- The node of a table that is finished.
abbrev pub node_of : Finished → Node
node_of out = record {
  block_to_filter = out.block_to_filter;
  index = out.index;
  sst_reader = new_sst_reader out.file;
}

pub ok_inj : {E A : Type 0} {a b : A} → Path (Res E A) (ok a) (ok b) → a ≡ b
ok_inj h = cc

module _ (P : Kv → Type 0) where
  All-left : (xs ys : List Kv) → All P (xs ++ ys) → All P xs
  All-left [] ys h = tt
  All-left (x ∷ xs) ys (h, more) = (h, All-left xs ys more)

  All-right : (xs ys : List Kv) → All P (xs ++ ys) → All P ys
  All-right [] ys h = h
  All-right (x ∷ xs) ys (h, more) = All-right xs ys more

  All-entries :
      (before after : List Segment) (s : Segment)
      → All P (all_entries (before ++ s ∷ after))
      → All P (entries_of s)
  All-entries [] after s h = All-left (entries_of s) (all_entries after) h
  All-entries (x ∷ before) after s h =
      All-entries before after s (All-right (entries_of x) (all_entries (before ++ s ∷ after)) h)

segment-IsSegment :
    (m : ℕ) (before after : List Segment) (s : Segment)
    → All (IsSegment m) (before ++ s ∷ after)
    → IsSegment m s
segment-IsSegment m [] after s h = h.0
segment-IsSegment m (x ∷ before) after s h = segment-IsSegment m before after s h.1

In-keys_of : (kv : Kv) (kvs : List Kv) → In kv kvs → In kv.key (keys_of kvs)
In-keys_of kv [] i = elim i [ ]
In-keys_of kv (x ∷ kvs) (inl e) = inl (ap (λ x. x.key) e)
In-keys_of kv (x ∷ kvs) (inr i) = inr (In-keys_of kv kvs i)

pub if_same :
    (found : Bool) (r : Res Error (Option (List ℕ)))
    → r ≡ ok none
    → (if found then r else ok none) ≡ ok none
if_same true r e = e
if_same false r e = refl

-- A file with these blocks.
pub record IsFile (limit m : ℕ) (ss : List Segment) (out : Finished) : Type 0 where
  pub each : All (IsSegment m) ss
  pub placed : Placed 0 ss
  pub small : length (all_bytes ss) ≤ limit
  pub filters : out.block_to_filter ≡ put_all (map filter_of ss) []
  pub rest : List ℕ
  pub file : out.file ≡ all_bytes ss ++ rest
  pub sized : All (IsSized limit) (all_entries ss)

module _ (limit footer_size m : ℕ) (spare : List ℕ → List ℕ) (others : List (List ℕ))
    (short : limit < 2 ^ 56) (divisor : 0 < m % 2 ^ 32) where
  abbrev at_index : List ℕ → Index → Finished → Res Error (Option (List ℕ))
  at_index key i out =
      get_at limit spare footer_size (added others (empty_filter m)) key i (node_of out)

  segment-exist :
      (key : List ℕ) (s : Segment)
      → IsSegment m s
      → (b : Bool) × (exist (some s.bitmap) key (added others (empty_filter m)) ≡ ok b)
  segment-exist key s (coded, hashed) =
      let keys = keys_of (entries_of s) in
      let bits = added-m keys (empty_filter m) in
      let some_key =
        In-length (hash_key s.first.key) (added keys (empty_filter m)).hashed_keys
          (In-added s.first.key keys (empty_filter m) (inl refl)) in
      let (bitmap, e, len) = hash-length (added keys (empty_filter m)) (rw bits divisor) some_key in
      let same : bitmap ≡ s.bitmap = ok_inj (sym e ∙ hashed) in
      let asked_bits = added-m others (empty_filter m) in
      let long : length s.bitmap ≡ suc (((added others (empty_filter m)).m + 7) / 8) =
        rw asked_bits (ap length (sym same) ∙ len ∙ ap (λ n. suc ((n + 7) / 8)) bits) in
      exist-total (added others (empty_filter m)) key s.bitmap (rw asked_bits divisor) long

  -- Under the entry of a block, the key is looked up among the entries of the block.
  get_at-index_of :
      (before after : List Segment) (s : Segment) (key : List ℕ) (out : Finished) (b : Bool)
      → IsFile limit m (before ++ s ∷ after) out
      → exist (some s.bitmap) key (added others (empty_filter m)) ≡ ok b
      → at_index key (index_of s) out ≡ (if b then ok (find_value key (entries_of s)) else ok none)
  unfolding get_at no_error
  get_at-index_of before after s key out b h in_filter =
      let (coded, hashed) = segment-IsSegment m before after s h.each in
      let some_byte : 0 < length s.bytes =
        omega (arith, length-Coded [] (entries_of s) s.bytes coded) in
      let there : lookup s.offset out.block_to_filter ≡ some s.bitmap =
        ap (lookup s.offset) h.filters ∙ lookup-filters 0 before after s [] h.placed some_byte in
      let split = all_bytes-split before after s in
      let len : length (all_bytes before) + length s.bytes ≤ limit = omega (
        arith,
        h.small,
        ap length split,
        length-append (all_bytes before) (s.bytes ++ all_bytes after),
        length-append s.bytes (all_bytes after),
      ) in
      let whole : out.file ≡ all_bytes before ++ (s.bytes ++ (all_bytes after ++ h.rest)) =
        h.file
        ∙ ap (λ b. b ++ h.rest) split
        ∙ append_assoc (all_bytes before) (s.bytes ++ all_bytes after) h.rest
        ∙ ap (λ b. all_bytes before ++ b) (append_assoc s.bytes (all_bytes after) h.rest) in
      let block =
        read_block-append limit spare footer_size (all_bytes before) s.bytes
          (all_bytes after ++ h.rest) (new_sst_reader out.file) s.offset (length s.bytes) whole
          (omega (arith, Placed-offset 0 before after s h.placed)) refl (omega arith)
          (omega arith) in
      let entries =
        read_block_data-Coded limit spare (omega arith) (entries_of s) s.bytes
          (All-entries (IsSized limit) before after s h.sized) coded in
      rw (get_at, there, in_filter, no_error, block, entries)

  -- Under the entry before the blocks, nothing is found.
  get_at-first :
      (s : Segment) (after : List Segment) (low key : List ℕ) (out : Finished)
      → IsFile limit m (s ∷ after) out
      → at_index key (record { key = low; prev_block_offset = 0; prev_block_size = 0 }) out
        ≡ ok none
  unfolding get_at no_error find_value
  get_at-first s after low key out h =
      let (coded, hashed) = h.each.0 in
      let some_byte : 0 < length s.bytes =
        omega (arith, length-Coded [] (entries_of s) s.bytes coded) in
      let there : lookup 0 out.block_to_filter ≡ some s.bitmap =
        ap (lookup 0) h.filters
        ∙ subst (λ o. lookup o (put_all (map filter_of (s ∷ after)) []) ≡ some s.bitmap) h.placed.0
            (lookup-filters 0 [] after s [] h.placed some_byte) in
      let (b, in_filter) = segment-exist key s h.each.0 in
      let block =
        read_block-append limit spare footer_size [] [] out.file (new_sst_reader out.file) 0 0 refl
          refl refl (omega arith) (omega arith) in
      let entries = read_block_data-Coded limit spare (omega arith) [] [] tt refl in
      rw (get_at, there, in_filter, no_error, block, entries)
        (if_same b (ok (find_value key [])) refl)

  -- A key of the table is found under the entry where the search ends.
  pub at_index-In :
      (low : List ℕ) (ss : List Segment) (out : Finished) (kv : Kv)
      → IsFile limit m ss out
      → Ascending low (all_entries ss)
      → In kv (all_entries ss)
      → let index =
          record { key = low; prev_block_offset = 0; prev_block_size = 0 } ∷ map index_of ss in
        (i : Index) × (binary_search_index (length index) kv.key 0 (length index - 1) index
          ≡ ok (i, true))
        × (at_index kv.key i out ≡ ok (some kv.value))
  at_index-In low ss out kv h a inside =
      let f = segments-Found low ss kv a inside in
      let e0 : Index = record { key = low; prev_block_offset = 0; prev_block_size = 0 } in
      let whole : e0 ∷ map index_of ss
          ≡ (e0 ∷ map index_of f.before) ++ map index_of (f.segment ∷ f.after) =
        ap (λ l. e0 ∷ map index_of l) f.split
        ∙ ap (λ l. e0 ∷ l) (map-append index_of f.before (f.segment ∷ f.after)) in
      let h' = subst (λ l. IsFile limit m l out) f.split h in
      let (coded, hashed) = segment-IsSegment m f.before f.after f.segment h'.each in
      let (bitmap, e, exists) =
        exist-hash m (keys_of (entries_of f.segment)) others kv.key divisor
          (In-keys_of kv (entries_of f.segment) f.inside) in
      let same : bitmap ≡ f.segment.bitmap = ok_inj (sym e ∙ hashed) in
      (
        index_of f.segment,
        subst
            (λ l.
              binary_search_index (length l) kv.key 0 (length l - 1) l
              ≡ ok (index_of f.segment, true))
            (sym whole)
            (binary_search_index-append kv.key (e0 ∷ map index_of f.before) (index_of f.segment)
              (map index_of f.after) (Ascending-In low (all_entries ss) kv a inside, f.low) f.high),
        get_at-index_of f.before f.after f.segment kv.key out true h' (
              subst (λ b. exist (some b) kv.key (added others (empty_filter m)) ≡ ok true) same
                exists)
            ∙ ap ok (find_value-In f.start (entries_of f.segment) kv f.ascending f.inside),
      )

  -- Under no entry a key is found that is not in the table.
  pub at_index-none :
      (s : Segment) (ss : List Segment) (low key : List ℕ) (out : Finished) (i : Index)
      → IsFile limit m (s ∷ ss) out
      → find_value key (all_entries (s ∷ ss)) ≡ none
      → In i
          (record { key = low; prev_block_offset = 0; prev_block_size = 0 } ∷ map index_of (s ∷ ss))
      → at_index key i out ≡ ok none
  at_index-none s ss low key out i h absent (inl e) =
      subst (λ i. at_index key i out ≡ ok none) e (get_at-first s ss low key out h)
  at_index-none s ss low key out i h absent (inr inside) =
      let (before, x, after, split, e) = index_of-In i (s ∷ ss) inside in
      let h' = subst (λ l. IsFile limit m l out) split h in
      let (b, in_filter) = segment-exist key x (segment-IsSegment m before after x h'.each) in
      let nothing =
        find_value-none key before after x
          (subst (λ l. find_value key (all_entries l) ≡ none) split absent) in
      subst (λ i. at_index key i out ≡ ok none) e
        (get_at-index_of before after x key out b h' in_filter
          ∙ if_same b (ok (find_value key (entries_of x))) (ap ok nothing))
