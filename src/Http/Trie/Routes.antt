-- ===== src/Http/Trie/Routes.antt =====
-- The tree as a map from lists of parts to patterns.
use yukino_go.Base.{
  ℕ, ◌≡◌, ◌≢◌, inl, inr, refl, ap, ◌∙◌, arith, Bool, true, false, ◌&&◌, Option, none, some, List,
  [], ◌∷◌, bytes_beq, bytes_beq_iff, Bool-cases, Option-cases, if◌then◌else◌, ok,
}
use yukino_go.Http.Trie.{
  Node, node, Children, nil, cons, pattern_of, part_of, children_of, is_wild_of, wild, insert,
  insert_child, match_child,
}

-- The pattern at a list of parts; none is empty.
unfoldable pub exact : List (List ℕ) → Node → List ℕ
exact [] n = pattern_of n
exact (part ∷ parts) n = elim (match_child part (children_of n)) [
  | none ↦ []
  | some c ↦ exact parts c
]

abbrev pub parts_beq : List (List ℕ) → List (List ℕ) → Bool
parts_beq [] [] = true
parts_beq [] (q ∷ qs) = false
parts_beq (p ∷ ps) [] = false
parts_beq (p ∷ ps) (q ∷ qs) = bytes_beq p q && parts_beq ps qs

-- A route as `parsePattern` makes it: no part is empty.
abbrev pub IsNamed : List (List ℕ) → Type 0
IsNamed [] = Unit
IsNamed (part ∷ parts) = (part ≢ []) × IsNamed parts

pub wild_total : (part : List ℕ) → part ≢ [] → (w : Bool) × (wild part ≡ ok w)
unfolding wild
wild_total [] h = absurd (h refl)
wild_total (c ∷ part) h = (_, refl)

-- What `insert` does to a tree, at every list of parts.
pub record Inserted (pattern : List ℕ) (parts : List (List ℕ)) (n n' : Node) : Type 0 where
  pub same_part : part_of n' ≡ part_of n
  pub same_wild : is_wild_of n' ≡ is_wild_of n
  pub routes :
      (qs : List (List ℕ)) → exact qs n' ≡ (if parts_beq parts qs then pattern else exact qs n)

exact_at : List (List ℕ) → Option Node → List ℕ
exact_at parts none = []
exact_at parts (some c) = exact parts c

pub exact_leaf :
    (part : List ℕ) (w : Bool) (qs : List (List ℕ)) → exact qs (node [] part nil w) ≡ []
unfolding exact match_child
exact_leaf part w [] = refl
exact_leaf part w (q ∷ qs) = refl

insert_child-routes :
    (pattern part : List ℕ) (parts : List (List ℕ)) (children : Children)
    → part ≢ []
    → ((c : Node) → (c' : Node) × (insert pattern parts c ≡ ok c') × Inserted pattern parts c c')
    → (children' : Children) × (insert_child part (insert pattern parts) children ≡ ok children')
      × ((q : List ℕ) (qs : List (List ℕ))
          → exact_at qs (match_child q children') ≡ (
              if bytes_beq part q && parts_beq parts qs
              then pattern
              else exact_at qs (match_child q children)))
unfolding insert_child match_child exact_at
insert_child-routes pattern part parts nil named into =
    let (w, is) = wild_total part named in
    let (c, did, r) = into (node [] part nil w) in
    (
      cons c nil,
      rw (is, did),
      λ q qs.
          ground (arith, ap (λ x. bytes_beq x q) r.same_part, r.routes qs, exact_leaf part w qs),
    )
insert_child-routes pattern part parts (cons c children) named into =
    elim (Bool-cases (bytes_beq (part_of c) part)) [
      | inl same ↦
          let e = (bytes_beq_iff (part_of c) part).0 same in
          let (c', did, r) = into c in
          (
            cons c' children,
            rw (same, did),
            λ q qs. ground (
              arith,
              ap (λ x. bytes_beq x q) (r.same_part ∙ e),
              ap (λ x. bytes_beq x q) e,
              r.routes qs,
            ),
          )
      | inr other ↦
          let (rest, did, same) = insert_child-routes pattern part parts children named into in
          (
            cons c rest,
            rw (other, did),
            λ q qs. ground (
              arith,
              bytes_beq_iff (part_of c) q,
              bytes_beq_iff part q,
              bytes_beq_iff (part_of c) part,
              same q qs,
            ),
          )
    ]

exact-cons :
    (q : List ℕ) (qs : List (List ℕ)) (n : Node)
    → exact (q ∷ qs) n ≡ exact_at qs (match_child q (children_of n))
unfolding exact exact_at
exact-cons q qs n = elim (Option-cases (match_child q (children_of n))) [
  | inl gone ↦ rw (gone, exact, exact_at)
  | inr (c, found) ↦ rw (found, exact, exact_at)
]

-- `insert` returns for parts that are not empty, gives their list the pattern, and leaves every
-- other list of parts the pattern that it had.
pub insert-Inserted :
    (pattern : List ℕ) (parts : List (List ℕ)) (n : Node)
    → IsNamed parts
    → (n' : Node) × (insert pattern parts n ≡ ok n') × Inserted pattern parts n n'
unfolding insert
insert-Inserted pattern [] (node old part children w) h = (
  node pattern part children w,
  refl,
  record { same_part = refl; same_wild = refl; routes = root_routes },
)
  where
    root_routes :
        (qs : List (List ℕ))
        → exact qs (node pattern part children w)
          ≡ (if parts_beq [] qs then pattern else exact qs (node old part children w))
    root_routes [] = unfold exact in refl
    root_routes (q ∷ qs) = unfold exact in refl
insert-Inserted pattern (next ∷ parts) (node old part children w) h =
    let (children', did, same) =
      insert_child-routes pattern next parts children h.0
        (λ c. insert-Inserted pattern parts c h.1) in
    (
      node old part children' w,
      rw did,
      record { same_part = refl; same_wild = refl; routes = routes' children' same },
    )
  where
    routes' :
        (children' : Children)
        → ((q : List ℕ) (qs : List (List ℕ))
            → exact_at qs (match_child q children') ≡ (
                if bytes_beq next q && parts_beq parts qs
                then pattern
                else exact_at qs (match_child q children)))
        → (qs : List (List ℕ))
        → exact qs (node old part children' w)
          ≡ (if parts_beq (next ∷ parts) qs then pattern else exact qs (node old part children w))
    routes' children' same [] = unfold exact in refl
    routes' children' same (q ∷ qs) =
        exact-cons q qs (node old part children' w)
        ∙ same q qs
        ∙ rw (exact-cons q qs (node old part children w))
