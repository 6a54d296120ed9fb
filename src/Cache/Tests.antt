-- ===== src/Cache/Tests.antt =====
-- Runs of the ring with two nodes, and the theorems at concrete inputs.
use yukino_go.Base.{ℕ, ◌+◌, ◌*◌, ◌≡◌, ◌≢◌, ◌⊎◌, refl, List, [], ◌∷◌, In, ok}
use yukino_go.Cache.Ring.{
  ConsistentHashMap, new_consistent_hash, get, add, add_nodes, add_node_locked, add_replicas,
  replica_name, digits_before, insert_asc, sort_asc, search, successor, remove, remove_node_locked,
  delete_each, to_remove, keep,
}
use yukino_go.Cache.Ring.Valid.{IsValid, Owns}
use yukino_go.Cache.Ring.Leaving.{remove-get}
use yukino_go.Cache.Ring.Rebalance.{add-get, get-next}

-- A small hash: the bytes in base 7.
abbrev toy_hash : List ℕ → ℕ
toy_hash [] = 0
toy_hash (c ∷ key) = c + 7 * toy_hash key

abbrev none_yet : ConsistentHashMap
none_yet = new_consistent_hash 2

none_yet-IsValid : IsValid none_yet
none_yet-IsValid = record {
  sorted = tt;
  ring = record { owned = λ k h. absurd h; entries = λ k n h. cc; listed = λ n hs k h i. cc };
}

abbrev two_nodes : ConsistentHashMap
two_nodes = record {
  default_replicas = 2;
  keys = 2764 ∷ 2765 ∷ 2813 ∷ 2814 ∷ [];
  hash_map = (2764, 97 ∷ []) ∷ (2813, 97 ∷ []) ∷ (2765, 98 ∷ []) ∷ (2814, 98 ∷ []) ∷ [];
  node_hashes = (97 ∷ [], 2764 ∷ 2813 ∷ []) ∷ (98 ∷ [], 2765 ∷ 2814 ∷ []) ∷ [];
  node_counts = (97 ∷ [], 0) ∷ (98 ∷ [], 0) ∷ [];
  total_requests = 0;
}

abbrev one_node : ConsistentHashMap
one_node = record {
  default_replicas = 2;
  keys = 2765 ∷ 2814 ∷ [];
  hash_map = (2765, 98 ∷ []) ∷ (2814, 98 ∷ []) ∷ [];
  node_hashes = (98 ∷ [], 2765 ∷ 2814 ∷ []) ∷ [];
  node_counts = (98 ∷ [], 0) ∷ [];
  total_requests = 0;
}

two_nodes_run : add toy_hash ((97 ∷ []) ∷ (98 ∷ []) ∷ []) none_yet ≡ ok two_nodes
unfolding add add_nodes add_node_locked add_replicas replica_name digits_before insert_asc sort_asc
    search successor get remove remove_node_locked delete_each to_remove keep
two_nodes_run = refl

one_node_run : remove (97 ∷ []) two_nodes ≡ ok one_node
unfolding add add_nodes add_node_locked add_replicas replica_name digits_before insert_asc sort_asc
    search successor get remove remove_node_locked delete_each to_remove keep
one_node_run = refl

-- A key of the node that leaves, and its answer before and after.
get_run :
    ((get toy_hash (5 ∷ []) two_nodes).0 ≡ 97 ∷ []) × ((get toy_hash (5 ∷ []) one_node).0 ≡ 98 ∷ [])
unfolding add add_nodes add_node_locked add_replicas replica_name digits_before insert_asc sort_asc
    search successor get remove remove_node_locked delete_each to_remove keep
get_run = (refl, refl)

two_nodes-IsValid : IsValid two_nodes
two_nodes-IsValid =
    (add-get toy_hash ((97 ∷ []) ∷ (98 ∷ []) ∷ []) [] none_yet two_nodes none_yet-IsValid
      two_nodes_run).0

add-get_example :
    IsValid two_nodes
    × (((get toy_hash (5 ∷ []) two_nodes).0 ≡ (get toy_hash (5 ∷ []) none_yet).0)
        ⊎ In (get toy_hash (5 ∷ []) two_nodes).0 ((97 ∷ []) ∷ (98 ∷ []) ∷ []))
add-get_example =
    add-get toy_hash ((97 ∷ []) ∷ (98 ∷ []) ∷ []) (5 ∷ []) none_yet two_nodes none_yet-IsValid
      two_nodes_run

remove-get_example :
    IsValid one_node
    × ((get toy_hash (5 ∷ []) one_node).0 ≢ 97 ∷ [])
    × (((get toy_hash (5 ∷ []) two_nodes).0 ≡ 97 ∷ [])
        ⊎ ((get toy_hash (5 ∷ []) one_node).0 ≡ (get toy_hash (5 ∷ []) two_nodes).0))
remove-get_example =
    remove-get toy_hash (97 ∷ []) (5 ∷ []) two_nodes one_node two_nodes-IsValid one_node_run

get-next_example :
    Owns two_nodes (toy_hash (5 ∷ 0 ∷ [])) (get toy_hash (5 ∷ 0 ∷ []) two_nodes).0
    ⊎ ((two_nodes.keys ≡ []) × ((get toy_hash (5 ∷ 0 ∷ []) two_nodes).0 ≡ []))
get-next_example = get-next toy_hash 5 (0 ∷ []) two_nodes two_nodes-IsValid
