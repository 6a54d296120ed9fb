-- ===== src/Lsm/Node/Tests.antt =====
-- Runs of the lookup in a table, and its theorem at a concrete input.
use yukino_go.Base.{
  ℕ, ◌<◌, ◌≡◌, ◌⊎◌, refl, arith, Option, none, some, List, [], ◌∷◌, All, Res, ok, ◌>>=◌,
}
use yukino_go.Lsm.{Error, put_more, read_more, read_uvarint, make_read}
use yukino_go.Lsm.Wal.{Kv}
use yukino_go.Lsm.Wal.Restore.{IsSized}
use yukino_go.Lsm.Block.{
  append, read_block_data, read_records, read_record, shared_prefix_len, flush_to, clear,
}
use yukino_go.Lsm.Filter as Filter
use yukino_go.Lsm.Filter.Exist.{added}
use yukino_go.Lsm.Table.{
  SstWriter, Finished, new_sst_writer, less_one, get_separator_between, insert_index, close_block,
  refresh_block, put_entry, append_kv, close_table, footer, finish, read_block,
}
use yukino_go.Lsm.Table.Writing.{append_all}
use yukino_go.Lsm.Table.RoundTrip.{table_size}
use yukino_go.Lsm.Node.{no_error, bytes_ltb, binary_search_index, find_value, get_at, node_get}
use yukino_go.Lsm.Node.Order.{Ascending}
use yukino_go.Lsm.Node.Segments.{empty_filter}
use yukino_go.Lsm.Node.Lookup.{node_get-finish}
use yukino_go.Lsm.Node.Reading.{node_of}

abbrev no_spare : List ℕ → List ℕ
no_spare xs = []

abbrev ab : Kv
ab = record { key = 97 ∷ 98 ∷ []; value = 1 ∷ [] }

abbrev ac : Kv
ac = record { key = 97 ∷ 99 ∷ []; value = 2 ∷ [] }

abbrev two : List Kv
two = ab ∷ ac ∷ []

-- Two entries fit in slices, and their keys ascend.
two-IsSized : All (IsSized 1000) two
two-IsSized = ((omega arith, omega arith), ((omega arith, omega arith), tt))

two-Ascending : Ascending (less_one ab.key) two
unfolding less_one bytes_ltb
two-Ascending = (refl, (refl, tt))

node_get-finish_example :
    (w w' : SstWriter) × (append_all 4 two (new_sst_writer 8) ≡ ok w)
    × (close_table w ≡ ok w')
    × ((1000 < table_size w')
        ⊎ ((out : Finished) × (finish 32 w ≡ ok out)
            × (node_get 1000 no_spare 32 (added [] (empty_filter 8)) ac.key (node_of out)
                ≡ ok (find_value ac.key two))))
node_get-finish_example =
    node_get-finish 1000 32 4 8 no_spare [] ab (ac ∷ []) ac.key (omega arith) (omega arith)
      (omega arith) (omega arith) (omega arith) two-IsSized two-Ascending

-- A table whose first key ends in a byte that is zero.
abbrev a0 : Kv
a0 = record { key = 97 ∷ 0 ∷ []; value = 1 ∷ [] }

abbrev look : Kv → Kv → Res Error (Option (List ℕ))
look kv other =
    no_error (append_all 4 (kv ∷ other ∷ []) (new_sst_writer 8) >>= finish 32) >>= λ out.
    node_get 1000 no_spare 32 (empty_filter 8) kv.key (node_of out)

-- The first key is found, unless it ends in a zero: the entry before the blocks is then not below it.
look-zero : (look ab ac ≡ ok (some (1 ∷ []))) × (look a0 ac ≡ ok none)
unfolding append_kv put_entry insert_index get_separator_between less_one refresh_block close_block
    append shared_prefix_len put_more flush_to clear Filter.hash Filter.set_keys Filter.set_bits
    Filter.target_bit Filter.with_bit Filter.best_k Filter.new_bitmap Filter.add Filter.hash_key
    Filter.fnv32a Filter.xor close_table finish footer no_error bytes_ltb node_get
    binary_search_index get_at Filter.exist Filter.exist_from Filter.has_bit read_block make_read
    read_block_data read_records read_record read_uvarint read_more find_value
look-zero = (refl, refl)
