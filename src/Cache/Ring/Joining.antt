-- ===== src/Cache/Ring/Joining.antt =====
-- `Add`: the ring stays valid, and keys move to the nodes that join only.
use yukino_go.Base.{
  ℕ, ◌≡◌, ◌⊎◌, inl, inr, refl, sym, ap, ◌∙◌, arith, false, some, none, List, [], ◌∷◌, ◌++◌, In,
  In-append, In-append_left, In-append_right, lookup, insert, nat_eq, bytes_eq, nat_beq,
  nat_beq_iff, lookup-insert, Bool-cases,
}
use yukino_go.Cache.Ring.{ConsistentHashMap}

-- From `m` to `m'` keys are only added, for the nodes of a list.
pub record Grown (nodes : List (List ℕ)) (m m' : ConsistentHashMap) : Type 0 where
  pub kept : (k : ℕ) → In k m.keys → In k m'.keys
  pub same : (k : ℕ) (n : List ℕ) → lookup k m.hash_map ≡ some n → lookup k m'.hash_map ≡ some n
  pub new :
      (k : ℕ)
      → In k m'.keys
      → In k m.keys ⊎ ((n : List ℕ) × (lookup k m'.hash_map ≡ some n) × In n nodes)

pub Grown-self : (nodes : List (List ℕ)) (m : ConsistentHashMap) → Grown nodes m m
Grown-self nodes m = record { kept = λ k h. h; same = λ k n h. h; new = λ k h. inl h }

-- A ring in which a node is joining: `hashes` are its own so far.
pub record IsJoining (node hashes : List ℕ) (m : ConsistentHashMap) : Type 0 where
  pub unknown : lookup node m.node_hashes ≡ none
  pub owned :
      (k : ℕ)
      → In k m.keys
      → (n : List ℕ) × (lookup k m.hash_map ≡ some n)
        × (((node ≡ n) × In k hashes)
            ⊎ ((hs : List ℕ) × (lookup n m.node_hashes ≡ some hs) × In k hs))
  pub entries : (k : ℕ) (n : List ℕ) → lookup k m.hash_map ≡ some n → In k m.keys
  pub listed :
      (n hs : List ℕ) (k : ℕ)
      → lookup n m.node_hashes ≡ some hs
      → In k hs
      → lookup k m.hash_map ≡ some n
  pub mine : (k : ℕ) → In k hashes → lookup k m.hash_map ≡ some node

-- One more hash.
abbrev pub with_hash : ℕ → List ℕ → ConsistentHashMap → ConsistentHashMap
with_hash hash node m = record m {
  keys = m.keys ++ hash ∷ [];
  hash_map = insert hash node m.hash_map;
}

module _ (hash : ℕ) (node hashes : List ℕ) (m : ConsistentHashMap) (j : IsJoining node hashes m)
    (free : lookup hash m.hash_map ≡ none) where
  put_self : lookup hash (insert hash node m.hash_map) ≡ some node
  put_self = ground (arith, lookup-insert hash hash node m.hash_map, nat_beq_iff hash hash)

  put_other :
      (k : ℕ) (n : List ℕ)
      → lookup k m.hash_map ≡ some n
      → lookup k (insert hash node m.hash_map) ≡ some n
  put_other k n h =
      let other : nat_beq hash k ≡ false = elim (Bool-cases (nat_beq hash k)) [
        | inl same ↦ cc (ap (λ x. lookup x m.hash_map) ((nat_beq_iff hash k).0 same), free)
        | inr ne ↦ ne
      ] in
      ground (arith, lookup-insert hash k node m.hash_map)

  pub with_hash-IsJoining : IsJoining node (hashes ++ hash ∷ []) (with_hash hash node m)
  with_hash-IsJoining = record {
    unknown = j.unknown;
    owned = λ k h. elim (In-append k m.keys (hash ∷ []) h) [
      | inl old ↦
          let (n, is, whose) = j.owned k old in
          (
            n,
            put_other k n is,
            elim whose [
              | inl (its, mem) ↦ inl (its, In-append_left k hashes (hash ∷ []) mem)
              | inr other ↦ inr other
            ],
          )
      | inr (inl e) ↦ (
        node,
        ap (λ x. lookup x (insert hash node m.hash_map)) (sym e) ∙ put_self,
        inl (refl, In-append_right k hashes (hash ∷ []) (inl e)),
      )
      | inr (inr no_more) ↦ absurd no_more
    ];
    entries = λ k n h. elim (Bool-cases (nat_beq hash k)) [
      | inl same ↦ In-append_right k m.keys (hash ∷ []) (inl ((nat_beq_iff hash k).0 same))
      | inr other ↦
          let old : lookup k m.hash_map ≡ some n =
            ground (arith, lookup-insert hash k node m.hash_map) in
          In-append_left k m.keys (hash ∷ []) (j.entries k n old)
    ];
    listed = λ n hs k h mem. put_other k n (j.listed n hs k h mem);
    mine = λ k h. elim (In-append k hashes (hash ∷ []) h) [
      | inl old ↦ put_other k node (j.mine k old)
      | inr (inl e) ↦ ap (λ x. lookup x (insert hash node m.hash_map)) (sym e) ∙ put_self
      | inr (inr no_more) ↦ absurd no_more
    ];
  }

  pub with_hash-Grown : Grown (node ∷ []) m (with_hash hash node m)
  with_hash-Grown = record {
    kept = λ k h. In-append_left k m.keys (hash ∷ []) h;
    same = put_other;
    new = λ k h. elim (In-append k m.keys (hash ∷ []) h) [
      | inl old ↦ inl old
      | inr (inl e) ↦
          inr (node, ap (λ x. lookup x (insert hash node m.hash_map)) (sym e) ∙ put_self, inl refl)
      | inr (inr no_more) ↦ absurd no_more
    ];
  }
