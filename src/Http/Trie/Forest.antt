-- ===== src/Http/Trie/Forest.antt =====
-- The invariant of the tree: the children of a node have different parts, and know whether theirs is
-- wild.
use mathlib.Core.Path.{subst}
use yukino_go.Base.{
  ℕ, ◌≡◌, ◌≢◌, ◌⊎◌, inl, inr, refl, sym, ap, ◌∙◌, arith, none, some, List, [], ◌∷◌, bytes_beq,
  bytes_beq_iff, Bool-cases, ok, ◌>>=◌, >>=-eq-ok,
}
use yukino_go.Http.Trie.{
  T, Node, node, Children, nil, cons, part_of, is_wild_of, wild, insert, insert_child, match_child,
}

unfoldable mutual
  pub IsTree : Node → Type 0
  IsTree (node pattern part children is_wild) = IsForest children

  pub IsForest : Children → Type 0
  IsForest nil = Unit {0}
  IsForest (cons c children) =
      (wild (part_of c) ≡ ok (is_wild_of c))
      × (match_child (part_of c) children ≡ none)
      × IsTree c
      × IsForest children

unfoldable pub Listed : Node → Children → Type 0
Listed c nil = ⊥
Listed c (cons d children) = (d ≡ c) ⊎ Listed c children

-- What a listed child is.
pub record IsChild (c : Node) (children : Children) : Type 0 where
  pub matched : match_child (part_of c) children ≡ some c
  pub knows : wild (part_of c) ≡ ok (is_wild_of c)
  pub tree : IsTree c

pub some-match_child :
    (q : List ℕ) (children : Children) (c : Node)
    → match_child q children ≡ some c
    → Listed c children × (part_of c ≡ q)
unfolding match_child Listed
some-match_child q nil c h = cc
some-match_child q (cons d children) c h = elim (Bool-cases (bytes_beq (part_of d) q)) [
  | inl same ↦
      let e : d ≡ c = ground arith in
      (inl e, ap part_of (sym e) ∙ (bytes_beq_iff (part_of d) q).0 same)
  | inr other ↦ let r = some-match_child q children c (rw other at h) in (inr r.0, r.1)
]

pub Listed-IsChild :
    (c : Node) (children : Children) → IsForest children → Listed c children → IsChild c children
unfolding match_child Listed IsTree
Listed-IsChild c nil f h = absurd h
Listed-IsChild c (cons d children) f (inl e) =
    let refl_beq = (bytes_beq_iff (part_of d) (part_of d)).1 refl in
    subst (λ x. IsChild x (cons d children)) e
      (record { matched = rw refl_beq; knows = f.0; tree = f.2 })
Listed-IsChild c (cons d children) f (inr below) =
    let r = Listed-IsChild c children f.3 below in
    elim (Bool-cases (bytes_beq (part_of d) (part_of c))) [
      | inl same ↦
          let e = (bytes_beq_iff (part_of d) (part_of c)).0 same in
          cc (ap (λ q. match_child q children) e, f.1, r.matched)
      | inr other ↦ record { matched = rw other r.matched; knows = r.knows; tree = r.tree }
    ]

-- `into` gives a tree of the same part for a tree.
abbrev Keeps : (Node → T Node) → Type 0
Keeps into =
    (c c' : Node)
    → into c ≡ ok c'
    → IsTree c
    → IsTree c' × (part_of c' ≡ part_of c) × (is_wild_of c' ≡ is_wild_of c)

insert_child-IsForest :
    (part : List ℕ) (into : Node → T Node) (children children' : Children)
    → Keeps into
    → IsForest children
    → insert_child part into children ≡ ok children'
    → IsForest children'
      × ((q : List ℕ) → part ≢ q → match_child q children ≡ none → match_child q children' ≡ none)
unfolding insert_child match_child IsTree
insert_child-IsForest part into nil children' keeps f h =
    let (w, is, h1) =
      >>=-eq-ok (wild part) (λ w. into (node [] part nil w) >>= λ child. ok (cons child nil)) h in
    let (c, did, h2) = >>=-eq-ok (into (node [] part nil w)) (λ child. ok (cons child nil)) h1 in
    let (tree, same_part, same_wild) = keeps (node [] part nil w) c did tt in
    let e : cons c nil ≡ children' = cc in
    subst
      (λ x.
        IsForest x × ((q : List ℕ) → part ≢ q → match_child q nil ≡ none → match_child q x ≡ none))
      e
      (
        (ap wild same_part ∙ is ∙ ap ok (sym same_wild), refl, tree, tt),
        λ q ne gone. ground (arith, bytes_beq_iff (part_of c) q, same_part),
      )
insert_child-IsForest part into (cons c children) children' keeps f h =
    elim (Bool-cases (bytes_beq (part_of c) part)) [
      | inl same ↦
          let (c', did, h1) = >>=-eq-ok (into c) (λ c'. ok (cons c' children)) (rw same at h) in
          let (tree, same_part, same_wild) = keeps c c' did f.2 in
          let e : cons c' children ≡ children' = cc in
          subst
            (λ x.
              IsForest x
              × ((q : List ℕ)
                  → part ≢ q
                  → match_child q (cons c children) ≡ none
                  → match_child q x ≡ none))
            e
            (
              (
                ap wild same_part ∙ f.0 ∙ ap ok (sym same_wild),
                ap (λ q. match_child q children) same_part ∙ f.1,
                tree,
                f.3,
              ),
              λ q ne gone. ground (arith, ap (λ x. bytes_beq x q) same_part),
            )
      | inr other ↦
          let (rest, did, h1) =
            >>=-eq-ok (insert_child part into children) (λ rest. ok (cons c rest))
              (rw other at h) in
          let (forest, still) = insert_child-IsForest part into children rest keeps f.3 did in
          let ne : part ≢ part_of c = λ e. cc (other, (bytes_beq_iff (part_of c) part).1 (sym e)) in
          let e : cons c rest ≡ children' = cc in
          subst
            (λ x.
              IsForest x
              × ((q : List ℕ)
                  → part ≢ q
                  → match_child q (cons c children) ≡ none
                  → match_child q x ≡ none))
            e
            (
              (f.0, still (part_of c) ne f.1, f.2, forest),
              λ q ne' gone. ground (arith, still q ne'),
            )
    ]

-- `insert` keeps the invariant.
pub insert-IsTree :
    (pattern : List ℕ) (parts : List (List ℕ)) (n n' : Node)
    → insert pattern parts n ≡ ok n'
    → IsTree n
    → IsTree n' × (part_of n' ≡ part_of n) × (is_wild_of n' ≡ is_wild_of n)
unfolding insert IsTree
insert-IsTree pattern [] (node old part children w) n' h t =
    let e : node pattern part children w ≡ n' = cc in
    subst (λ x. IsTree x × (part_of x ≡ part) × (is_wild_of x ≡ w)) e (t, refl, refl)
insert-IsTree pattern (next ∷ parts) (node old part children w) n' h t =
    let (children', did, h1) =
      >>=-eq-ok (insert_child next (insert pattern parts) children)
        (λ children'. ok (node old part children' w)) h in
    let (forest, still) =
      insert_child-IsForest next (insert pattern parts) children children'
        (λ c c' did' t'. insert-IsTree pattern parts c c' did' t') t did in
    let e : node old part children' w ≡ n' = cc in
    subst (λ x. IsTree x × (part_of x ≡ part) × (is_wild_of x ≡ w)) e (forest, refl, refl)
