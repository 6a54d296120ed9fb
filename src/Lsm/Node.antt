-- ===== src/Lsm/Node.antt =====
-- components/lsm_tree/node.go: a table of the tree, and how a key is looked up in it.
pub mod Order
pub mod Search
pub mod Segments
pub mod Closing
pub mod Complete
pub mod Finding
pub mod Reading
pub mod Lookup
mod Tests
use yukino_go.Base.{
  ℕ, zero, suc, ◌+◌, ◌-◌, ◌/◌, Bool, true, false, not, Option, none, some, List, [], ◌∷◌, length,
  get_elem?, nat_beq, ltb, bytes_beq, lookup, nat_eq, if◌then◌else◌, Res, ok, err, panic, ◌>>=◌,
  index,
}
use yukino_go.Lsm.{Error}
use yukino_go.Lsm.Wal.{Kv}
use yukino_go.Lsm.Block.{read_block_data}
use yukino_go.Lsm.Filter.{BloomFilter, exist}
use yukino_go.Lsm.Filter as Filter
use yukino_go.Lsm.Table.{Index, SstReader, read_block}

-- What `Get` reads of a node.
pub record Node : Type 0 where
  pub block_to_filter : List (ℕ × List ℕ)
  pub index : List Index
  pub sst_reader : SstReader

-- `bytes.Compare(a, b) < 0`
unfoldable pub bytes_ltb : List ℕ → List ℕ → Bool
bytes_ltb [] [] = false
bytes_ltb [] (y ∷ b) = true
bytes_ltb (x ∷ a) [] = false
bytes_ltb (x ∷ a) (y ∷ b) =
    let rest = bytes_ltb a b in if ltb x y then true else if ltb y x then false else rest

-- `binarySearchIndex`, on fuel: the interval gets shorter.
unfoldable pub binary_search_index : ℕ → List ℕ → ℕ → ℕ → List Index → Res Error (Index × Bool)
binary_search_index zero key start end entries = panic
binary_search_index (suc n) key start end entries =
    let mid = start + (end - start) / 2 in
    let right = binary_search_index n key (mid + 1) end entries in
    let left = binary_search_index n key start mid entries in
    if nat_beq start end
    then (index entries start >>= λ i. ok (i, not (bytes_ltb i.key key)))
    else (index entries mid >>= λ i. if bytes_ltb i.key key then right else left)

-- The loop over the entries of a block.
unfoldable pub find_value : List ℕ → List Kv → Option (List ℕ)
find_value key [] = none
find_value key (kv ∷ kvs) =
    let rest = find_value key kvs in if bytes_beq kv.key key then some kv.value else rest

-- `Exist` returns no error.
unfoldable pub no_error : {A : Type 0} → Res Filter.Error A → Res Error A
no_error (ok a) = ok a
no_error (err e) = panic
no_error panic = panic

module _ (limit : ℕ) (spare : List ℕ → List ℕ) (footer_size : ℕ) (filter : BloomFilter) where
  -- `Get` once the entry of the index is found.
  unfoldable pub get_at : List ℕ → Index → Node → Res Error (Option (List ℕ))
  get_at key i n = elim (lookup i.prev_block_offset n.block_to_filter) [
    | none ↦ ok none
    | some bitmap ↦ no_error (exist (some bitmap) key filter) >>= λ there.
        let block : Res Error (Option (List ℕ)) =
          read_block limit spare footer_size i.prev_block_offset i.prev_block_size n.sst_reader
          >>= λ block. read_block_data limit spare block >>= λ kvs. ok (find_value key kvs) in
        if there then block else ok none
  ]

  -- `Get`, where `filter` is `conf.Filter`.
  unfoldable pub node_get : List ℕ → Node → Res Error (Option (List ℕ))
  node_get key n =
      if nat_beq (length n.index) 0
      then ok none
      else (binary_search_index (length n.index) key 0 (length n.index - 1) n.index
          >>= λ (i, found). if found then get_at key i n else ok none)
