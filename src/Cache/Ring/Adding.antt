-- ===== src/Cache/Ring/Adding.antt =====
-- `Add`, and what it changes of the answers of `Get`.
use yukino_go.Base.{
  ℕ, zero, suc, ◌≡◌, ◌≢◌, inl, inr, ap, ◌∙◌, arith, some, none, List, [], ◌∷◌, ◌++◌, In, lookup,
  insert, nat_eq, bytes_eq, bytes_beq, bytes_beq_iff, lookup-insert, Option-cases, Bool-cases,
}
use yukino_go.Cache.Ring.{ConsistentHashMap, add_nodes, add_node_locked, add_replicas, replica_name}
use yukino_go.Cache.Ring.Valid.{IsOwned}
use yukino_go.Cache.Ring.Joining.{
  Grown, Grown-self, IsJoining, with_hash, with_hash-IsJoining, with_hash-Grown,
}

Grown-trans :
    {nodes : List (List ℕ)} {m m' m'' : ConsistentHashMap}
    → Grown nodes m m'
    → Grown nodes m' m''
    → Grown nodes m m''
Grown-trans g h = record {
  kept = λ k i. h.kept k (g.kept k i);
  same = λ k n i. h.same k n (g.same k n i);
  new = λ k i. elim (h.new k i) [
    | inl old ↦ elim (g.new k old) [
      | inl older ↦ inl older
      | inr (n, is, among) ↦ inr (n, h.same k n is, among)
    ]
    | inr fresh ↦ inr fresh
  ];
}

Grown-more :
    {nodes more : List (List ℕ)} {m m' : ConsistentHashMap}
    → ((n : List ℕ) → In n nodes → In n more)
    → Grown nodes m m'
    → Grown more m m'
Grown-more f g = record {
  kept = g.kept;
  same = g.same;
  new = λ k i. elim (g.new k i) [ inl old ↦ inl old | inr (n, is, among) ↦ inr (n, is, f n among) ];
}

module _ (hash_func : List ℕ → ℕ) where
  add_replicas-IsJoining :
      (node : List ℕ) (rest i : ℕ) (hashes : List ℕ) (m : ConsistentHashMap)
      → IsJoining node hashes m
      → IsJoining node
          (add_replicas hash_func node rest i hashes m).1
          (add_replicas hash_func node rest i hashes m).0
        × Grown (node ∷ []) m (add_replicas hash_func node rest i hashes m).0
  unfolding add_replicas
  add_replicas-IsJoining node zero i hashes m j = (j, Grown-self (node ∷ []) m)
  add_replicas-IsJoining node (suc rest) i hashes m j =
      elim (Option-cases (lookup (hash_func (replica_name node i)) m.hash_map)) [
        | inl free ↦
            let hash = hash_func (replica_name node i) in
            let (j', g) =
              add_replicas-IsJoining node rest (suc i) (hashes ++ hash ∷ []) (with_hash hash node m)
                (with_hash-IsJoining hash node hashes m j free) in
            rw (free, add_replicas) (j', Grown-trans (with_hash-Grown hash node hashes m j free) g)
        | inr (n, taken) ↦
            rw (taken, add_replicas) (add_replicas-IsJoining node rest (suc i) hashes m j)
      ]

  -- A node that joined.
  joined-IsOwned :
      (node hashes : List ℕ) (m : ConsistentHashMap) (counts : List (List ℕ × ℕ))
      → IsJoining node hashes m
      → IsOwned (record m { node_hashes = insert node hashes m.node_hashes; node_counts = counts })
  joined-IsOwned node hashes m counts j =
      let put = λ (n : List ℕ). lookup-insert node n hashes m.node_hashes in
      let known = λ (n hs : List ℕ) (h : lookup n m.node_hashes ≡ some hs).
        let ne : node ≢ n = λ e. cc (ap (λ x. lookup x m.node_hashes) e, j.unknown, h) in ne in
      record {
        owned = λ k h.
            let (n, is, whose) = j.owned k h in
            elim whose [
              | inl (its, mem) ↦ (n, hashes, is, ground (arith, put n, bytes_beq_iff node n), mem)
              | inr (hs, has, mem) ↦
                  let ne = known n hs has in
                  (n, hs, is, ground (arith, put n, bytes_beq_iff node n), mem)
            ];
        entries = j.entries;
        listed = λ n hs k h mem. elim (Bool-cases (bytes_beq node n)) [
          | inl its ↦
              let e = (bytes_beq_iff node n).0 its in
              let hs' : hs ≡ hashes = ground (arith, put n) in j.mine k (rw hs' at mem) ∙ ap some e
          | inr other ↦ j.listed n hs k (ground (arith, put n)) mem
        ];
      }

  start-IsJoining :
      (node : List ℕ) (m : ConsistentHashMap)
      → lookup node m.node_hashes ≡ none
      → IsOwned m
      → IsJoining node [] m
  start-IsJoining node m new o = record {
    unknown = new;
    owned = λ k h. let (n, hs, is, has, mem) = o.owned k h in (n, is, inr (hs, has, mem));
    entries = o.entries;
    listed = o.listed;
    mine = λ k h. absurd h;
  }

  add_node_locked-IsOwned :
      (node : List ℕ) (replicas : ℕ) (m : ConsistentHashMap)
      → IsOwned m
      → IsOwned (add_node_locked hash_func node replicas m)
        × Grown (node ∷ []) m (add_node_locked hash_func node replicas m)
  unfolding add_node_locked
  add_node_locked-IsOwned node replicas m o = elim (Option-cases (lookup node m.node_hashes)) [
    | inl new ↦
        let (j, g) = add_replicas-IsJoining node replicas 0 [] m (start-IsJoining node m new o) in
        rw (new, add_node_locked)
          (
            joined-IsOwned node (add_replicas hash_func node replicas 0 [] m).1
                (add_replicas hash_func node replicas 0 [] m).0 _ j,
            record { kept = g.kept; same = g.same; new = g.new },
          )
    | inr (hs, exists) ↦ rw (exists, add_node_locked) (o, Grown-self (node ∷ []) m)
  ]

  pub add_nodes-IsOwned :
      (nodes : List (List ℕ)) (m : ConsistentHashMap)
      → IsOwned m
      → IsOwned (add_nodes hash_func nodes m) × Grown nodes m (add_nodes hash_func nodes m)
  unfolding add_nodes
  add_nodes-IsOwned [] m o = (o, Grown-self [] m)
  add_nodes-IsOwned ([] ∷ nodes) m o =
      let (o', g) = add_nodes-IsOwned nodes m o in (o', Grown-more (λ n i. inr i) g)
  add_nodes-IsOwned ((c ∷ name) ∷ nodes) m o =
      let (o', g) = add_node_locked-IsOwned (c ∷ name) m.default_replicas m o in
      let (o'', g') =
        add_nodes-IsOwned nodes (add_node_locked hash_func (c ∷ name) m.default_replicas m) o' in
      (
        o'',
        Grown-trans
            (Grown-more (λ n i. elim i [ inl e ↦ inl e | inr none_more ↦ absurd none_more ]) g)
            (Grown-more (λ n i. inr i) g'),
      )
