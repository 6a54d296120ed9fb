-- ===== src/Cache/Ring/Leaving.antt =====
-- `Remove`: the ring stays valid, and only the keys of the node that leaves move.
use mathlib.Core.Path.{subst}
use yukino_go.Base.{
  ℕ, ◌≡◌, ◌≢◌, ◌⊎◌, inl, inr, refl, sym, ap, ◌∙◌, arith, Bool, true, false, some, none, List, [],
  ◌∷◌, In, lookup, delete, nat_eq, bytes_eq, bytes_beq, bytes_beq_iff, nat_beq, nat_beq_iff,
  lookup-delete, Option-cases, Bool-cases, if◌then◌else◌, ok, err,
}
use yukino_go.Cache.Ring.{
  node_not_found, ConsistentHashMap, get, remove, remove_node_locked, delete_each, to_remove, keep,
}
use yukino_go.Cache.Ring.Successor.{IsSorted, IsNext, ahead, around, IsNext-In, In-All, All-le}
use yukino_go.Cache.Ring.Valid.{IsValid, Owns, get-Owns, Owns-get}

In-to_remove : (hashes : List ℕ) (k : ℕ) → to_remove hashes k ≡ true → In k hashes
unfolding to_remove
In-to_remove [] k h = cc
In-to_remove (x ∷ hashes) k h = elim (Bool-cases (nat_beq x k)) [
  | inl same ↦ inl ((nat_beq_iff x k).0 same)
  | inr other ↦ inr (In-to_remove hashes k (rw other at h))
]

to_remove-In : (hashes : List ℕ) (k : ℕ) → In k hashes → to_remove hashes k ≡ true
unfolding to_remove
to_remove-In [] k h = absurd h
to_remove-In (x ∷ hashes) k (inl e) = rw ((nat_beq_iff x k).1 e)
to_remove-In (x ∷ hashes) k (inr m) = ground (arith, to_remove-In hashes k m)

lookup-delete_each :
    (hashes : List ℕ) (k : ℕ) (entries : List (ℕ × List ℕ))
    → lookup k (delete_each hashes entries)
      ≡ (if to_remove hashes k then none else lookup k entries)
unfolding delete_each to_remove
lookup-delete_each [] k entries = refl
lookup-delete_each (x ∷ hashes) k entries =
    ground (arith, lookup-delete_each hashes k (delete x entries), lookup-delete x k entries)

In-keep :
    (drop : ℕ → Bool) (keys : List ℕ) (k : ℕ) → In k (keep drop keys) → In k keys × (drop k ≡ false)
unfolding keep
In-keep drop [] k h = absurd h
In-keep drop (x ∷ keys) k h = elim (Bool-cases (drop x)) [
  | inl gone ↦ let r = In-keep drop keys k (rw gone at h) in (inr r.0, r.1)
  | inr kept ↦
      let h' : (x ≡ k) ⊎ In k (keep drop keys) = rw kept at h in
      elim h' [
        | inl e ↦ (inl e, ap drop (sym e) ∙ kept)
        | inr m ↦ let r = In-keep drop keys k m in (inr r.0, r.1)
      ]
]

keep-In :
    (drop : ℕ → Bool) (keys : List ℕ) (k : ℕ) → In k keys → drop k ≡ false → In k (keep drop keys)
unfolding keep
keep-In drop [] k h d = absurd h
keep-In drop (x ∷ keys) k (inl e) d = let kept : drop x ≡ false = ap drop e ∙ d in rw kept (inl e)
keep-In drop (x ∷ keys) k (inr m) d = elim (Bool-cases (drop x)) [
  | inl gone ↦ rw gone (keep-In drop keys k m d)
  | inr kept ↦ rw kept (inr (keep-In drop keys k m d))
]

keep-IsSorted : (drop : ℕ → Bool) (keys : List ℕ) → IsSorted keys → IsSorted (keep drop keys)
unfolding keep
keep-IsSorted drop [] s = s
keep-IsSorted drop (x ∷ keys) s = elim (Bool-cases (drop x)) [
  | inl gone ↦ rw gone (keep-IsSorted drop keys s.1)
  | inr kept ↦ rw kept (
    In-All x (keep drop keys) (λ y m. All-le x keys y s.0 (In-keep drop keys y m).0),
    keep-IsSorted drop keys s.1,
  )
]

-- The next key stays the next one when others go.
keep-IsNext :
    (drop : ℕ → Bool) {hash : ℕ} {keys : List ℕ} {k : ℕ}
    → IsNext hash keys k
    → drop k ≡ false
    → IsNext hash (keep drop keys) k
keep-IsNext drop {hash} {keys} {k} (ahead m h least) d =
    ahead (keep-In drop keys k m d) h (λ x m'. least x (In-keep drop keys x m').0)
keep-IsNext drop {hash} {keys} {k} (around m past least) d =
    around (keep-In drop keys k m d) (λ x m'. past x (In-keep drop keys x m').0)
      (λ x m'. least x (In-keep drop keys x m').0)

module _ (node hashes : List ℕ) (m : ConsistentHashMap) (v : IsValid m)
    (has : lookup node m.node_hashes ≡ some hashes) where
  abbrev pub left : ConsistentHashMap
  left = record m {
    hash_map = delete_each hashes m.hash_map;
    keys = keep (to_remove hashes) m.keys;
    node_hashes = delete node m.node_hashes;
    node_counts = delete node m.node_counts;
  }

  -- A hash of another node stays.
  not_removed :
      (k : ℕ) (n : List ℕ) → lookup k m.hash_map ≡ some n → node ≢ n → to_remove hashes k ≡ false
  not_removed k n is other = elim (Bool-cases (to_remove hashes k)) [
    | inl gone ↦
        let its = v.ring.listed node hashes k has (In-to_remove hashes k gone) in
        absurd (other (cc))
    | inr stays ↦ stays
  ]

  others :
      (k : ℕ) (n : List ℕ)
      → lookup k left.hash_map ≡ some n
      → (lookup k m.hash_map ≡ some n) × (to_remove hashes k ≡ false)
  others k n h = ground (arith, lookup-delete_each hashes k m.hash_map)

  left_node :
      (n hs : List ℕ)
      → lookup n left.node_hashes ≡ some hs
      → (node ≢ n) × (lookup n m.node_hashes ≡ some hs)
  left_node n hs h = ground (arith, lookup-delete node n m.node_hashes, bytes_beq_iff node n)

  left-IsValid : IsValid left
  left-IsValid = record {
    sorted = keep-IsSorted (to_remove hashes) m.keys v.sorted;
    ring = record {
      owned = λ k h.
          let (mem, stays) = In-keep (to_remove hashes) m.keys k h in
          let (n, hs, is, its, inside) = v.ring.owned k mem in
          let other : node ≢ n = λ e.
            let hs' : hs ≡ hashes = cc (ap (λ x. lookup x m.node_hashes) e, its, has) in
            cc (to_remove-In hashes k (rw hs' at inside), stays) in
          (
            n,
            hs,
            ground (arith, lookup-delete_each hashes k m.hash_map),
            ground (arith, lookup-delete node n m.node_hashes, bytes_beq_iff node n),
            inside,
          );
      entries = λ k n h.
          let (is, stays) = others k n h in
          keep-In (to_remove hashes) m.keys k (v.ring.entries k n is) stays;
      listed = λ n hs k h inside.
          let (other, its) = left_node n hs h in
          let is = v.ring.listed n hs k its inside in
          let stays = not_removed k n is other in
          ground (arith, lookup-delete_each hashes k m.hash_map);
    };
  }

  left-Owns : (hash : ℕ) (n : List ℕ) → Owns m hash n → node ≢ n → Owns left hash n
  left-Owns hash n o other =
      let stays = not_removed o.next n o.node other in
      let is = o.node in
      record {
        next = o.next;
        is_next = keep-IsNext (to_remove hashes) o.is_next stays;
        node = ground (arith, lookup-delete_each hashes o.next m.hash_map);
      }

  gone : (hash : ℕ) (n : List ℕ) → Owns left hash n → node ≢ n
  gone hash n o e =
      let (k_in, stays) = In-keep (to_remove hashes) m.keys o.next (IsNext-In o.is_next) in
      let (n', hs, is, its, inside) = v.ring.owned o.next k_in in
      let (is', stays') = others o.next n o.node in
      let same : node ≡ n' = e ∙ cc in
      let hs' : hs ≡ hashes = cc (ap (λ x. lookup x m.node_hashes) same, its, has) in
      cc (to_remove-In hashes o.next (rw hs' at inside), stays)

  module _ (hash_func : List ℕ → ℕ) where
    left_answer :
        (c : ℕ) (key : List ℕ)
        → ((get hash_func (c ∷ key) m).0 ≡ node)
          ⊎ ((get hash_func (c ∷ key) left).0 ≡ (get hash_func (c ∷ key) m).0)
    left_answer c key = elim (get-Owns hash_func m v c key) [
      | inl o ↦ elim (Bool-cases (bytes_beq (get hash_func (c ∷ key) m).0 node)) [
        | inl its ↦ inl ((bytes_beq_iff (get hash_func (c ∷ key) m).0 node).0 its)
        | inr other ↦
            let ne : node ≢ (get hash_func (c ∷ key) m).0 =
              λ e. cc (other, (bytes_beq_iff (get hash_func (c ∷ key) m).0 node).1 (sym e)) in
            inr (
              Owns-get hash_func left left-IsValid c key (get hash_func (c ∷ key) m).0
                (left-Owns (hash_func (c ∷ key)) (get hash_func (c ∷ key) m).0 o ne))
      ]
      | inr (empty, nothing) ↦ elim (get-Owns hash_func left left-IsValid c key) [
        | inl o ↦
            let (k_in, stays) = In-keep (to_remove hashes) m.keys o.next (IsNext-In o.is_next) in
            absurd (rw empty at k_in)
        | inr (empty', nothing') ↦ inr (nothing' ∙ sym nothing)
      ]
    ]

    left-get :
        (key : List ℕ)
        → node ≢ []
        → ((get hash_func key left).0 ≢ node)
          × (((get hash_func key m).0 ≡ node)
              ⊎ ((get hash_func key left).0 ≡ (get hash_func key m).0))
    unfolding get
    left-get [] named = (λ e. named (sym e), inr refl)
    left-get (c ∷ key) named = (
      λ e. elim (get-Owns hash_func left left-IsValid c key) [
        | inl o ↦ gone (hash_func (c ∷ key)) (get hash_func (c ∷ key) left).0 o (sym e)
        | inr (empty, nothing) ↦ named (sym e ∙ nothing)
      ],
      left_answer c key,
    )

-- `Remove` of a node of a valid ring leaves a valid ring that never answers with the node, and that
-- answers for the key as before, unless the node had it.
pub remove-get :
    (hash_func : List ℕ → ℕ) (node key : List ℕ) (m m' : ConsistentHashMap)
    → IsValid m
    → remove node m ≡ ok m'
    → IsValid m'
      × ((get hash_func key m').0 ≢ node)
      × (((get hash_func key m).0 ≡ node) ⊎ ((get hash_func key m').0 ≡ (get hash_func key m).0))
unfolding remove remove_node_locked
remove-get hash_func [] key m m' v h = cc
remove-get hash_func (x ∷ name) key m m' v h =
    elim (Option-cases (lookup (x ∷ name) m.node_hashes)) [
      | inl unknown ↦
          let h' : err node_not_found ≡ ok m' = rw (unknown, remove, remove_node_locked) at h in cc
      | inr (hashes, has) ↦
          let h' : ok (left (x ∷ name) hashes m v has) ≡ ok m' =
            rw (has, remove, remove_node_locked) at h in
          let same : left (x ∷ name) hashes m v has ≡ m' = cc in
          let (never, rest) = left-get (x ∷ name) hashes m v has hash_func key (λ e. cc) in
          subst
            (λ r.
              IsValid r
              × ((get hash_func key r).0 ≢ x ∷ name)
              × (((get hash_func key m).0 ≡ x ∷ name)
                  ⊎ ((get hash_func key r).0 ≡ (get hash_func key m).0)))
            same (left-IsValid (x ∷ name) hashes m v has, never, rest)
    ]
