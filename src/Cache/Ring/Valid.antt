-- ===== src/Cache/Ring/Valid.antt =====
-- The invariant of the ring, and the node that owns a hash.
use yukino_go.Base.{
  ℕ, ◌≡◌, ◌⊎◌, inl, inr, refl, ap, some, none, List, [], ◌∷◌, In, lookup, nat_eq, bytes_eq,
  Option-cases,
}
use yukino_go.Cache.Ring.{ConsistentHashMap, successor, get}
use yukino_go.Cache.Ring.Successor.{
  IsSorted, IsNext, IsNext-In, IsNext-unique, successor-IsNext, successor_total,
}

-- A ring whose keys are the hashes of its nodes, each the hash of one node.
pub record IsOwned (m : ConsistentHashMap) : Type 0 where
  pub owned :
      (k : ℕ)
      → In k m.keys
      → (n : List ℕ) × (hashes : List ℕ) × (lookup k m.hash_map ≡ some n)
        × (lookup n m.node_hashes ≡ some hashes)
        × In k hashes
  pub entries : (k : ℕ) (n : List ℕ) → lookup k m.hash_map ≡ some n → In k m.keys
  pub listed :
      (n hashes : List ℕ) (k : ℕ)
      → lookup n m.node_hashes ≡ some hashes
      → In k hashes
      → lookup k m.hash_map ≡ some n

pub record IsValid (m : ConsistentHashMap) : Type 0 where
  pub sorted : IsSorted m.keys
  pub ring : IsOwned m

-- The node of the next key owns a hash.
pub record Owns (m : ConsistentHashMap) (hash : ℕ) (n : List ℕ) : Type 0 where
  pub next : ℕ
  pub is_next : IsNext hash m.keys next
  pub node : lookup next m.hash_map ≡ some n

pub Owns-unique :
    {m : ConsistentHashMap} {hash : ℕ} {a b : List ℕ} → Owns m hash a → Owns m hash b → a ≡ b
Owns-unique {m} o p =
    let same = IsNext-unique o.is_next p.is_next in
    cc (ap (λ k. lookup k m.hash_map) same, o.node, p.node)

module _ (hash_func : List ℕ → ℕ) (m : ConsistentHashMap) (v : IsValid m) (c : ℕ)
    (key : List ℕ) where
  -- What `Get` answers: the owner, or nothing on an empty ring.
  pub get-Owns :
      Owns m (hash_func (c ∷ key)) (get hash_func (c ∷ key) m).0
      ⊎ ((m.keys ≡ []) × ((get hash_func (c ∷ key) m).0 ≡ []))
  unfolding get successor
  get-Owns = elim (Option-cases (successor (hash_func (c ∷ key)) m.keys)) [
    | inl empty ↦ inr (none_empty m.keys empty, rw (empty, get))
    | inr (k, found) ↦
        let next = successor-IsNext (hash_func (c ∷ key)) m.keys k v.sorted found in
        let (n, hashes, has, rest, mem) = v.ring.owned k (IsNext-In next) in
        inl (record { next = k; is_next = next; node = rw (found, get, has) })
  ]
    where
      none_empty : (keys : List ℕ) → successor (hash_func (c ∷ key)) keys ≡ none → keys ≡ []
      none_empty [] h = refl
      none_empty (x ∷ keys) h =
          let (k, found) = successor_total (hash_func (c ∷ key)) (x ∷ keys) x (inl refl) in cc

  -- An owner is what `Get` answers.
  pub Owns-get : (n : List ℕ) → Owns m (hash_func (c ∷ key)) n → (get hash_func (c ∷ key) m).0 ≡ n
  Owns-get n o = elim get-Owns [
    | inl p ↦ Owns-unique p o
    | inr (empty, nothing) ↦ absurd (rw empty at (IsNext-In o.is_next))
  ]
