-- ===== src/Cache/Ring.antt =====
-- libs/yukino_cache/consistent_hash.go: which node a key belongs to. A method is one atomic step, as
-- under its mutex; `hash_func` is the configured hash, a `uint32`.
pub mod Successor
pub mod Valid
pub mod Joining
pub mod Adding
pub mod Leaving
pub mod Rebalance
use yukino_go.Base.{
  ℕ, zero, suc, ◌+◌, ◌/◌, ◌%◌, Bool, true, false, Option, none, some, List, [], ◌∷◌, ◌++◌, nat_beq,
  leb, ltb, if◌then◌else◌, lookup, insert, delete, nat_eq, bytes_eq, Res, ok, err, ◌>>=◌,
}

pub data Error : Type 0 where
  no_nodes_provided : Error
  invalid_node : Error
  node_not_found : Error

pub record ConsistentHashMap : Type 0 where
  pub default_replicas : ℕ
  pub keys : List ℕ
  pub hash_map : List (ℕ × List ℕ)
  pub node_hashes : List (List ℕ × List ℕ)
  pub node_counts : List (List ℕ × ℕ)
  pub total_requests : ℕ

abbrev pub new_consistent_hash : ℕ → ConsistentHashMap
new_consistent_hash replicas = record {
  default_replicas = replicas;
  keys = [];
  hash_map = [];
  node_hashes = [];
  node_counts = [];
  total_requests = 0;
}

-- The decimal digits of a number, before a text; a number below 10^fuel has enough fuel.
unfoldable pub digits_before : ℕ → ℕ → List ℕ → List ℕ
digits_before zero n text = text
digits_before (suc fuel) n text =
    let shown = (48 + n % 10) ∷ text in
    let more = digits_before fuel (n / 10) shown in if ltb n 10 then shown else more

-- `fmt.Appendf(nil, "%s-%d", node, i)`
unfoldable pub replica_name : List ℕ → ℕ → List ℕ
replica_name node i = node ++ 45 ∷ digits_before (suc i) i []

-- `sort.Ints`
unfoldable pub insert_asc : ℕ → List ℕ → List ℕ
insert_asc k [] = k ∷ []
insert_asc k (x ∷ xs) = let below = insert_asc k xs in if leb k x then k ∷ x ∷ xs else x ∷ below

unfoldable pub sort_asc : List ℕ → List ℕ
sort_asc [] = []
sort_asc (x ∷ xs) = insert_asc x (sort_asc xs)

-- `m.keys[idx]` for the index that `sort.Search` finds: the first key from `hash` on, if there is one.
unfoldable pub search : ℕ → List ℕ → Option ℕ
search hash [] = none
search hash (k ∷ keys) = if leb hash k then some k else search hash keys

-- The key whose node `Get` takes: the one found, or `m.keys[0]`.
unfoldable pub successor : ℕ → List ℕ → Option ℕ
successor hash [] = none
successor hash (k ∷ keys) = elim (search hash (k ∷ keys)) [
  | none ↦ some k
  | some found ↦ some found
]

module _ (hash_func : List ℕ → ℕ) where
  -- The loop of `addNodeLocked` from replica `i` on; `hashes` are those of the replicas before.
  unfoldable pub add_replicas :
      List ℕ → ℕ → ℕ → List ℕ → ConsistentHashMap → ConsistentHashMap × List ℕ
  add_replicas node zero i hashes m = (m, hashes)
  add_replicas node (suc rest) i hashes m =
      let hash = hash_func (replica_name node i) in
      elim (lookup hash m.hash_map) [
        | some taken ↦ add_replicas node rest (suc i) hashes m
        | none ↦
            add_replicas node rest (suc i) (hashes ++ hash ∷ [])
              (record m { keys = m.keys ++ hash ∷ []; hash_map = insert hash node m.hash_map })
      ]

  unfoldable pub add_node_locked : List ℕ → ℕ → ConsistentHashMap → ConsistentHashMap
  add_node_locked node replicas m = elim (lookup node m.node_hashes) [
    | some exists ↦ m
    | none ↦
        let (m', hashes) = add_replicas node replicas 0 [] m in
        record m' {
          node_hashes = insert node hashes m'.node_hashes;
          node_counts = elim (lookup node m'.node_counts) [
            | some counter ↦ m'.node_counts
            | none ↦ insert node 0 m'.node_counts
          ];
        }
  ]

  -- The loop of `Add`.
  unfoldable pub add_nodes : List (List ℕ) → ConsistentHashMap → ConsistentHashMap
  add_nodes [] m = m
  add_nodes (node ∷ nodes) m = elim node [
    | [] ↦ add_nodes nodes m
    | c ∷ name ↦ add_nodes nodes (add_node_locked (c ∷ name) m.default_replicas m)
  ]

  unfoldable pub add : List (List ℕ) → ConsistentHashMap → Res Error ConsistentHashMap
  add [] m = err no_nodes_provided
  add (node ∷ nodes) m =
      let m' = add_nodes (node ∷ nodes) m in ok (record m' { keys = sort_asc m'.keys })

  -- The node, and the map with the request counted.
  unfoldable pub get : List ℕ → ConsistentHashMap → List ℕ × ConsistentHashMap
  get [] m = ([], m)
  get (c ∷ key) m = elim (successor (hash_func (c ∷ key)) m.keys) [
    | none ↦ ([], m)
    | some k ↦
        let node : List ℕ = elim (lookup k m.hash_map) [ none ↦ [] | some owner ↦ owner ] in
        (
          node,
          record m {
            node_counts = elim (lookup node m.node_counts) [
              | none ↦ m.node_counts
              | some counter ↦ insert node (counter + 1) m.node_counts
            ];
            total_requests = m.total_requests + 1;
          },
        )
  ]

-- `delete(m.hashMap, hash)` for each hash.
unfoldable pub delete_each : List ℕ → List (ℕ × List ℕ) → List (ℕ × List ℕ)
delete_each [] hash_map = hash_map
delete_each (hash ∷ hashes) hash_map = delete_each hashes (delete hash hash_map)

-- `toRemove`, as a test.
unfoldable pub to_remove : List ℕ → ℕ → Bool
to_remove [] k = false
to_remove (hash ∷ hashes) k = if nat_beq hash k then true else to_remove hashes k

-- The loop that fills `kept`.
unfoldable pub keep : (ℕ → Bool) → List ℕ → List ℕ
keep drop [] = []
keep drop (k ∷ keys) = let kept = keep drop keys in if drop k then kept else k ∷ kept

unfoldable pub remove_node_locked : List ℕ → ConsistentHashMap → Res Error ConsistentHashMap
remove_node_locked node m = elim (lookup node m.node_hashes) [
  | none ↦ err node_not_found
  | some hashes ↦ ok (record m {
    hash_map = delete_each hashes m.hash_map;
    keys = keep (to_remove hashes) m.keys;
    node_hashes = delete node m.node_hashes;
    node_counts = delete node m.node_counts;
  })
]

unfoldable pub remove : List ℕ → ConsistentHashMap → Res Error ConsistentHashMap
remove [] m = err invalid_node
remove (c ∷ node) m = remove_node_locked (c ∷ node) m
