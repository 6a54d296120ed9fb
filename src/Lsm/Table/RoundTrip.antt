-- ===== src/Lsm/Table/RoundTrip.antt =====
-- What a reader finds in the file of a writer.
use mathlib.Core.List.{append_assoc, append-nil}
use mathlib.Core.Path.{subst}
use yukino_go.Base.{
  ℕ, suc, ◌+◌, ◌/◌, ◌%◌, ◌^◌, ◌≤◌, ◌<◌, ◌≡◌, ◌⊎◌, inl, inr, refl, sym, ap, ◌∙◌, arith, Bool-cases,
  List, [], ◌∷◌, ◌++◌, map, All, length, length-append, insert, nat_eq, ltb, ltb→lt, ok,
}
use yukino_go.Lsm.{put_uvarint, read_uvarint}
use yukino_go.Lsm.Varint.{read_uvarint-put_uvarint, put_uvarint-le}
use yukino_go.Lsm.Wal.{Kv}
use yukino_go.Lsm.Wal.Restore.{IsSized}
use yukino_go.Lsm.Block.{flush_to}
use yukino_go.Lsm.Block.Coded.{
  Coded, length-Coded, fold_all, read_block_data-Coded, fold_records-Coded,
}
use yukino_go.Lsm.Table.{
  Index, SstWriter, new_sst_writer, index_kv, insert_index, filter_kv, close_table, finish,
  footer_numbers, Finished, SstReader, new_sst_reader, read_footer, uvarint, uvarint_value,
  put_filter, put_index, read_filter, read_index, read_data,
}
use yukino_go.Lsm.Table.Footer.{
  footer-footer_numbers, read_footer-footer_numbers, read_block-append,
}
use yukino_go.Lsm.Table.Writing.{
  IsWriting, IsIndex, IsFilter, put_all, append_all, append_all-IsWriting, refresh_block-IsWriting,
  insert_index-IsWriting,
}

uvarint_value-put_uvarint : (x : ℕ) → x < 2 ^ 64 → uvarint_value (put_uvarint x) ≡ x
unfolding uvarint_value
uvarint_value-put_uvarint x h =
    let e : read_uvarint (put_uvarint x) ≡ ok (x, []) =
      ap read_uvarint (sym (append-nil (put_uvarint x))) ∙ read_uvarint-put_uvarint x [] h in
    rw (e, uvarint_value)

uvarint-put_uvarint :
    (x : ℕ) (bs : List ℕ) → x < 2 ^ 64 → uvarint (put_uvarint x ++ bs) ≡ ok (x, bs)
unfolding uvarint
uvarint-put_uvarint x bs h = rw (read_uvarint-put_uvarint x bs h, uvarint)

-- What the loops of the reader make of the entries that the writer made.
fold_all-put_filter :
    (n limit : ℕ) (fs : List (ℕ × List ℕ)) (filters : List (ℕ × List ℕ))
    → n < 2 ^ 64
    → All (IsFilter limit n) fs
    → fold_all put_filter (map filter_kv fs) filters ≡ ok (put_all fs filters)
unfolding put_filter
fold_all-put_filter n limit [] filters word h = refl
fold_all-put_filter n limit ((offset, bitmap) ∷ fs) filters word ((low, sized), h) =
    rw (put_filter, uvarint_value-put_uvarint offset (omega arith))
      (fold_all-put_filter n limit fs (insert offset bitmap filters) word h)

fold_all-put_index :
    (n limit : ℕ) (more : List Index) (index : List Index)
    → n < 2 ^ 64
    → All (IsIndex limit n) more
    → fold_all put_index (map index_kv more) index ≡ ok (index ++ more)
unfolding put_index
fold_all-put_index n limit [] index word h = ap ok (sym (append-nil index))
fold_all-put_index n limit (i ∷ more) index word ((sized, low), h) =
    let o = i.prev_block_offset in
    let z = i.prev_block_size in
    rw
      (
        put_index,
        uvarint-put_uvarint o (put_uvarint z) (omega arith),
        uvarint_value-put_uvarint z (omega arith),
      )
      (fold_all-put_index n limit more (index ++ i ∷ []) word h
        ∙ ap ok (append_assoc index (i ∷ []) more))

filters-IsSized :
    (n limit : ℕ) (fs : List (ℕ × List ℕ))
    → 20 ≤ limit
    → All (IsFilter limit n) fs
    → All (IsSized limit) (map filter_kv fs)
filters-IsSized n limit [] room h = tt
filters-IsSized n limit ((offset, bitmap) ∷ fs) room ((low, sized), h) =
    ((omega (arith, put_uvarint-le offset), sized), filters-IsSized n limit fs room h)

index-IsSized :
    (n limit : ℕ) (more : List Index)
    → 20 ≤ limit
    → All (IsIndex limit n) more
    → All (IsSized limit) (map index_kv more)
index-IsSized n limit [] room h = tt
index-IsSized n limit (i ∷ more) room ((sized, low), h) = (
  (
    sized,
    omega (
      arith,
      length-append (put_uvarint i.prev_block_offset) (put_uvarint i.prev_block_size),
      put_uvarint-le i.prev_block_offset,
      put_uvarint-le i.prev_block_size,
    ),
  ),
  index-IsSized n limit more room h,
)

-- How many bytes a table has before its footer.
abbrev pub table_size : SstWriter → ℕ
table_size w =
    length w.data_buf + length w.filter_block.record_bytes + length w.index_block.record_bytes

-- A reader of a file finds what was appended, and what `Finish` returned.
abbrev pub ReadsBack : ℕ → (List ℕ → List ℕ) → ℕ → List Kv → Finished → Type 0
ReadsBack limit spare footer_size kvs out =
    (read_data limit spare footer_size (new_sst_reader out.file) ≡ ok kvs)
    × (read_index limit spare footer_size (new_sst_reader out.file) ≡ ok out.index)
    × (read_filter limit spare footer_size (new_sst_reader out.file) ≡ ok out.block_to_filter)

close_table-IsWriting :
    (m limit : ℕ) (w : SstWriter) (kvs : List Kv)
    → 0 < m % 2 ^ 32
    → suc ((m + 7) / 8) ≤ limit
    → IsWriting m limit w kvs
    → (w' : SstWriter) × (close_table w ≡ ok w')
      × IsWriting m limit w' kvs
      × Coded [] kvs w'.data_buf
unfolding close_table insert_index
close_table-IsWriting m limit w kvs divisor fits h =
    let (w1, e, h1, empty) = refresh_block-IsWriting m limit w kvs divisor fits h in
    (
      insert_index w1.prev_key w1,
      rw e,
      insert_index-IsWriting m limit w1.prev_key w1 kvs h1.prev_sized h1,
      subst (Coded [] kvs) (ap (λ b. w1.data_buf ++ b) empty ∙ append-nil w1.data_buf) h1.coded,
    )

module _ (limit footer_size : ℕ) (spare : List ℕ → List ℕ) (room : 20 ≤ limit)
    (footer_room : 32 ≤ footer_size) (short : limit < 2 ^ 56) (m : ℕ) (w : SstWriter)
    (kvs : List Kv) (sized : All (IsSized limit) kvs) (h : IsWriting m limit w kvs)
    (coded : Coded [] kvs w.data_buf) (small : table_size w ≤ limit) where
  finished-ReadsBack :
      (out : Finished) (rest : List ℕ)
      → out.index ≡ w.index
      → out.block_to_filter ≡ w.block_to_filter
      → out.file
        ≡ w.data_buf
          ++ (w.filter_block.record_bytes
              ++ (w.index_block.record_bytes
                  ++ (footer_numbers w.data_buf w.filter_block.record_bytes
                        w.index_block.record_bytes
                      ++ rest)))
      → length
          (footer_numbers w.data_buf w.filter_block.record_bytes w.index_block.record_bytes ++ rest)
        ≡ footer_size
      → ReadsBack limit spare footer_size kvs out
  unfolding read_data read_index read_filter
  finished-ReadsBack out rest same_index same_filters file len =
      let d = w.data_buf in
      let f = w.filter_block.record_bytes in
      let i = w.index_block.record_bytes in
      let end = footer_numbers d f i ++ rest in
      let parts : d ++ (f ++ (i ++ end)) ≡ (d ++ (f ++ i)) ++ end =
        sym (append_assoc d (f ++ i) end ∙ ap (λ x. d ++ x) (append_assoc f i end)) in
      let whole = file ∙ parts in
      let r : SstReader = record {
        src = out.file;
        filter_offset = length d;
        filter_size = length f;
        index_offset = length d + length f;
        index_size = length i;
      } in
      let foot : read_footer footer_size (new_sst_reader out.file) ≡ ok r =
        subst (λ src. read_footer footer_size (new_sst_reader src) ≡ ok (record r { src = src }))
          (sym whole)
          (read_footer-footer_numbers footer_size d f i (d ++ (f ++ i)) rest len (omega arith)) in
      let data_block =
        read_block-append limit spare footer_size [] d (f ++ (i ++ end)) r 0 (length d) file refl
          refl (omega arith) (omega arith) in
      let filter_block =
        read_block-append limit spare footer_size d f (i ++ end) r (length d) (length f) file refl
          refl (omega arith) (omega arith) in
      let index_block =
        read_block-append limit spare footer_size (d ++ f) i end r (length d + length f) (length i)
          (file ∙ sym (append_assoc d f (i ++ end))) (sym (length-append d f)) refl
          (omega (arith, length-append d f)) (omega arith) in
      let n = length d in
      let index_kvs = map index_kv w.index in
      let filter_kvs = map filter_kv h.filters in
      (
        rw (foot, data_block) (read_block_data-Coded limit spare (omega arith) kvs d sized coded),
        rw (foot, index_block)
            (fold_records-Coded limit spare (omega arith) put_index index_kvs [] i (suc (length i))
                [] (omega (arith, length-Coded [] index_kvs i h.index_holds.coded))
                (index-IsSized n limit w.index room h.index_small) h.index_holds.coded
              ∙ fold_all-put_index n limit w.index [] (omega arith) h.index_small
              ∙ ap ok (sym same_index)),
        rw (foot, filter_block)
            (fold_records-Coded limit spare (omega arith) put_filter filter_kvs [] f
                (suc (length f)) []
                (omega (arith, length-Coded [] filter_kvs f h.filter_holds.coded))
                (filters-IsSized n limit h.filters room h.filters_small) h.filter_holds.coded
              ∙ fold_all-put_filter n limit h.filters [] (omega arith) h.filters_small
              ∙ ap ok (sym h.filter_map ∙ sym same_filters)),
      )

-- Entries that fit in slices are appended to a new table, which is then closed; and if it takes no
-- more bytes than a slice can have, `Finish` returns, and a reader of the file that it has written
-- finds the entries in their order, and the index and the filters that `Finish` returned.
pub finish-ReadsBack :
    (limit footer_size block_size m : ℕ) (spare : List ℕ → List ℕ) (kvs : List Kv)
    → 20 ≤ limit
    → limit < 2 ^ 56
    → 32 ≤ footer_size
    → 0 < m % 2 ^ 32
    → suc ((m + 7) / 8) ≤ limit
    → All (IsSized limit) kvs
    → (w w' : SstWriter) × (append_all block_size kvs (new_sst_writer m) ≡ ok w)
      × (close_table w ≡ ok w')
      × ((limit < table_size w')
          ⊎ ((out : Finished) × (finish footer_size w ≡ ok out)
              × ReadsBack limit spare footer_size kvs out))
unfolding finish flush_to
finish-ReadsBack limit footer_size block_size m spare kvs room short footer_room divisor fits
      sized =
    let (w, e, h) = append_all-IsWriting m limit block_size kvs divisor fits sized in
    let (w', e', h', coded) = close_table-IsWriting m limit w kvs divisor fits h in
    elim (Bool-cases (ltb limit (table_size w'))) [
      | inl large ↦ (w, w', e, e', inl (ltb→lt limit (table_size w') large))
      | inr small ↦
          let within : table_size w' ≤ limit = ground arith in
          let d = w'.data_buf in
          let f = w'.filter_block.record_bytes in
          let i = w'.index_block.record_bytes in
          let (rest, foot, len) =
            footer-footer_numbers footer_size d f i footer_room (omega arith) in
          let out : Finished = record {
            table_bytes = length d + length f + length i;
            block_to_filter = w'.block_to_filter;
            index = w'.index;
            file = d ++ (f ++ (i ++ (footer_numbers d f i ++ rest)));
          } in
          (
            w,
            w',
            e,
            e',
            inr (
              out,
              rw (e', h'.no_filter_buf, h'.no_index_buf, foot),
              finished-ReadsBack limit footer_size spare room footer_room short m w' kvs sized h'
                  coded within out rest refl refl refl len,
            ),
          )
    ]
