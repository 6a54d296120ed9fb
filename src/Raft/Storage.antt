-- ===== src/Raft/Storage.antt =====
-- components/raft/raft/storage.go: `MemoryStorage`, the implementation of the `Storage` interface.
-- Its mutex is not modelled: each method is one atomic step.
use yukino_go.Base.{
  ℕ, List, [], ◌∷◌, ◌++◌, ◌^◌, length, panic, ltb, leb, nat_beq, add64, sub64, if◌then◌else◌, Res,
  ok, err, ◌>>=◌, index, slice,
}
use yukino_go.Raft.Model.{Entry, entry_normal, HardState, empty_hard_state}

pub data Error : Type 0 where
  compacted unavailable : Error

abbrev pub R : Type 0 → Type 0
R A = Res Error A

pub record Storage : Type 0 where
  pub hard_state : HardState
  pub entries : List Entry

-- `make([]Entry, 1)`: one dummy entry.
abbrev pub dummy : Entry
dummy = record { term = 0; index = 0; type = entry_normal; bytes = [] }

abbrev pub new_memory_storage : Storage
new_memory_storage = record { hard_state = empty_hard_state; entries = dummy ∷ [] }

-- `m.entries[0].Index`
unfoldable pub offset_of : Storage → R ℕ
offset_of m = do e ← index m.entries 0; ok e.index

unfoldable pub storage_last_index : Storage → R ℕ
unfolding offset_of
storage_last_index m = do off ← offset_of m; ok (sub64 (add64 off (length m.entries)) 1)

unfoldable pub storage_first_index : Storage → R ℕ
unfolding offset_of
storage_first_index m = do off ← offset_of m; ok (add64 off 1)

unfoldable pub storage_entries : Storage → ℕ → ℕ → R (List Entry)
unfolding offset_of storage_last_index
storage_entries m l r = do
  off ← offset_of m
  last ← storage_last_index m
  if leb l off
      then err compacted
      else if ltb (add64 last 1) r
      then err unavailable
      else if nat_beq (length m.entries) 1
      then err unavailable
      else slice m.entries (sub64 l off) (sub64 r off)

-- A slice has fewer than 2^63 entries; past that, `int(i-offset)` is negative, and the index panics.
unfoldable pub storage_term : Storage → ℕ → R ℕ
unfolding offset_of
storage_term m i = do
  off ← offset_of m
  if ltb i off
      then err compacted
      else if ltb (sub64 i off) (length m.entries)
      then (do e ← index m.entries (sub64 i off); ok e.term)
      else if leb (2 ^ 63) (sub64 i off)
      then panic
      else err unavailable

unfoldable pub storage_append : Storage → List Entry → R Storage
unfolding offset_of storage_last_index
storage_append m [] = ok m
storage_append m (e ∷ es) = do
  off ← offset_of m
  last ← storage_last_index m
  if ltb e.index off then ok m else if ltb (add64 last 1) e.index then err unavailable else (do
    kept ← slice m.entries 0 (sub64 e.index off)
    ok (record m { entries = kept ++ (e ∷ es) }))

unfoldable pub set_hard_state : Storage → HardState → Storage
set_hard_state m hs = record m { hard_state = hs }
