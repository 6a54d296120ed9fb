-- ===== src/Cache/Ring/Rebalance.antt =====
-- Which keys move when nodes join.
use yukino_go.Base.{ℕ, ◌≡◌, ◌⊎◌, inl, inr, refl, sym, ◌∙◌, List, [], ◌∷◌, In, nat_eq, bytes_eq, ok}
use mathlib.Core.Path.{subst}
use yukino_go.Cache.Ring.{ConsistentHashMap, get, add, add_nodes, sort_asc}
use yukino_go.Cache.Ring.Successor.{
  IsNext, ahead, around, IsNext-In, In-sort_asc, sort_asc-In, sort_asc-IsSorted,
}
use yukino_go.Cache.Ring.Valid.{IsOwned, IsValid, Owns, get-Owns, Owns-get}
use yukino_go.Cache.Ring.Joining.{Grown}
use yukino_go.Cache.Ring.Adding.{add_nodes-IsOwned}

sorted-Grown :
    {nodes : List (List ℕ)} {m m' : ConsistentHashMap}
    → Grown nodes m m'
    → Grown nodes m (record m' { keys = sort_asc m'.keys })
sorted-Grown {m' = m'} g = record {
  kept = λ k i. sort_asc-In k m'.keys (g.kept k i);
  same = g.same;
  new = λ k i. g.new k (In-sort_asc k m'.keys i);
}

sorted-IsValid : (m : ConsistentHashMap) → IsOwned m → IsValid (record m { keys = sort_asc m.keys })
sorted-IsValid m o = record {
  sorted = sort_asc-IsSorted m.keys;
  ring = record {
    owned = λ k i. o.owned k (In-sort_asc k m.keys i);
    entries = λ k n h. sort_asc-In k m.keys (o.entries k n h);
    listed = o.listed;
  };
}

-- The next key of a grown ring is the next of the ring before, if it was there.
older-IsNext :
    {nodes : List (List ℕ)} {m m' : ConsistentHashMap} {hash k : ℕ}
    → Grown nodes m m'
    → IsNext hash m'.keys k
    → In k m.keys
    → IsNext hash m.keys k
older-IsNext g (ahead i h least) old = ahead old h (λ x j. least x (g.kept x j))
older-IsNext g (around i past least) old =
    around old (λ x j. past x (g.kept x j)) (λ x j. least x (g.kept x j))

module _ (hash_func : List ℕ → ℕ) (nodes : List (List ℕ)) (m m' : ConsistentHashMap) (v : IsValid m)
    (v' : IsValid m') (g : Grown nodes m m') where
  grown_answer :
      (key : List ℕ)
      → ((get hash_func key m').0 ≡ (get hash_func key m).0) ⊎ In (get hash_func key m').0 nodes
  unfolding get
  grown_answer [] = inl refl
  grown_answer (c ∷ key) = elim (get-Owns hash_func m' v' c key) [
    | inl p ↦ elim (g.new p.next (IsNext-In p.is_next)) [
      | inl old ↦
          let (n, hs, is, has, mem) = v.ring.owned p.next old in
          let before : Owns m (hash_func (c ∷ key)) n = record {
            next = p.next;
            is_next = older-IsNext g p.is_next old;
            node = is;
          } in
          let same : n ≡ (get hash_func (c ∷ key) m').0 = cc (g.same p.next n is, p.node) in
          inl (sym same ∙ sym (Owns-get hash_func m v c key n before))
      | inr (n, is, among) ↦
          let same : n ≡ (get hash_func (c ∷ key) m').0 = cc (is, p.node) in
          inr (subst (λ x. In x nodes) same among)
    ]
    | inr (empty', nothing') ↦ elim (get-Owns hash_func m v c key) [
      | inl o ↦ absurd (rw empty' at (g.kept o.next (IsNext-In o.is_next)))
      | inr (empty, nothing) ↦ inl (nothing' ∙ sym nothing)
    ]
  ]

-- `Add` to a valid ring leaves a valid ring, which answers for every key as before or with a node
-- that was added.
pub add-get :
    (hash_func : List ℕ → ℕ) (nodes : List (List ℕ)) (key : List ℕ) (m m' : ConsistentHashMap)
    → IsValid m
    → add hash_func nodes m ≡ ok m'
    → IsValid m'
      × (((get hash_func key m').0 ≡ (get hash_func key m).0) ⊎ In (get hash_func key m').0 nodes)
unfolding add
add-get hash_func [] key m m' v h = cc
add-get hash_func (node ∷ nodes) key m m' v h =
    let (o, g) = add_nodes-IsOwned hash_func (node ∷ nodes) m v.ring in
    let after = add_nodes hash_func (node ∷ nodes) m in
    let same : record after { keys = sort_asc after.keys } ≡ m' = cc in
    let v' = sorted-IsValid after o in
    subst
      (λ r.
        IsValid r
        × (((get hash_func key r).0 ≡ (get hash_func key m).0)
            ⊎ In (get hash_func key r).0 (node ∷ nodes)))
      same (v', grown_answer hash_func (node ∷ nodes) m _ v v' (sorted-Grown g) key)

-- `Get` on a valid ring answers with the node of the next key of the ring, or nothing if it is empty.
pub get-next :
    (hash_func : List ℕ → ℕ) (c : ℕ) (key : List ℕ) (m : ConsistentHashMap)
    → IsValid m
    → Owns m (hash_func (c ∷ key)) (get hash_func (c ∷ key) m).0
      ⊎ ((m.keys ≡ []) × ((get hash_func (c ∷ key) m).0 ≡ []))
get-next hash_func c key m v = get-Owns hash_func m v c key
