-- ===== src/Lsm/Table/Tests.antt =====
-- A run of a table, and its theorem at a concrete input.
use yukino_go.Base.{ℕ, ◌<◌, ◌≡◌, ◌⊎◌, refl, arith, List, [], ◌∷◌, All, Res, ok, ◌>>=◌, map}
use yukino_go.Lsm.Wal.{Kv}
use yukino_go.Lsm.Wal.Restore.{IsSized}
use yukino_go.Lsm.{put_more}
use yukino_go.Lsm.Block.{append, shared_prefix_len, flush_to, clear}
use yukino_go.Lsm.Filter as Filter
use yukino_go.Lsm.Table.{
  SstWriter, Finished, new_sst_writer, less_one, get_separator_between, insert_index, close_block,
  refresh_block, put_entry, append_kv, close_table, footer, finish,
}
use yukino_go.Lsm.Table.Writing.{append_all}
use yukino_go.Lsm.Table.RoundTrip.{table_size, ReadsBack, finish-ReadsBack}

abbrev no_spare : List ℕ → List ℕ
no_spare xs = []

abbrev ab : Kv
ab = record { key = 97 ∷ 98 ∷ []; value = 1 ∷ [] }

abbrev ac : Kv
ac = record { key = 97 ∷ 99 ∷ []; value = 2 ∷ [] }

abbrev two : List Kv
two = ab ∷ ac ∷ []

abbrev finished : Res Filter.Error Finished
finished = append_all 4 two (new_sst_writer 8) >>= finish 32

abbrev offsets : Res Filter.Error (List ℕ)
offsets = finished >>= λ out. ok (map (λ i. i.prev_block_offset) out.index)

-- With blocks of four bytes, each entry has a block of its own, of six bytes; the last entry of the
-- index is for the block before the end.
offsets-two : offsets ≡ ok (0 ∷ 0 ∷ 6 ∷ [])
unfolding append_kv put_entry insert_index get_separator_between less_one refresh_block close_block
    append shared_prefix_len put_more flush_to clear Filter.hash Filter.set_keys Filter.set_bits
    Filter.target_bit Filter.with_bit Filter.best_k Filter.new_bitmap Filter.add Filter.hash_key
    Filter.fnv32a Filter.xor close_table finish footer
offsets-two = refl

two-IsSized : All (IsSized 1000) two
two-IsSized = ((omega arith, omega arith), ((omega arith, omega arith), tt))

finish-ReadsBack_example :
    (w w' : SstWriter) × (append_all 4 two (new_sst_writer 8) ≡ ok w)
    × (close_table w ≡ ok w')
    × ((1000 < table_size w')
        ⊎ ((out : Finished) × (finish 32 w ≡ ok out) × ReadsBack 1000 no_spare 32 two out))
finish-ReadsBack_example =
    finish-ReadsBack 1000 32 4 8 no_spare two (omega arith) (omega arith) (omega arith)
      (omega arith) (omega arith) two-IsSized
