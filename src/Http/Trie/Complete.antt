-- ===== src/Http/Trie/Complete.antt =====
-- `search` finds a route wherever one covers the path.
use yukino_go.Base.{
  ℕ, ◌≡◌, ◌≢◌, inl, inr, ap, ◌∙◌, arith, true, false, not, ◌&&◌, ◌||◌, Option, some, List, [], ◌∷◌,
  bytes_beq, bytes_beq_iff, Bool-cases, Option-cases, In, In-append_left, In-append_right,
}
use yukino_go.Http.Trie.{
  Node, Children, nil, cons, pattern_of, part_of, children_of, is_wild_of, starred, match_child,
  match_children, same_part, wild_others, with_pattern, first_found, search,
}
use yukino_go.Http.Trie.Routes.{exact}
use yukino_go.Http.Trie.Forest.{IsTree, IsForest, Listed, Listed-IsChild, some-match_child}
use yukino_go.Http.Trie.Sound.{is_wild_part, covers, tail_covers, wild-is_wild_part, IsForest-of}

same_part-In :
    (part : List ℕ) (children : Children) (c : Node)
    → Listed c children
    → part_of c ≡ part
    → In c (same_part part children)
unfolding same_part Listed
same_part-In part nil c h e = absurd h
same_part-In part (cons d children) c (inl same) e =
    let fits : bytes_beq (part_of d) part ≡ true =
      (bytes_beq_iff (part_of d) part).1 (ap part_of same ∙ e) in
    rw fits (inl same)
same_part-In part (cons d children) c (inr below) e =
    elim (Bool-cases (bytes_beq (part_of d) part)) [
      | inl same ↦ rw same (inr (same_part-In part children c below e))
      | inr other ↦ rw other (same_part-In part children c below e)
    ]

wild_others-In :
    (part : List ℕ) (children : Children) (c : Node)
    → Listed c children
    → bytes_beq (part_of c) part ≡ false
    → is_wild_of c ≡ true
    → In c (wild_others part children)
unfolding wild_others Listed
wild_others-In part nil c h e w = absurd h
wild_others-In part (cons d children) c (inl same) e w =
    let fits : (not (bytes_beq (part_of d) part) && is_wild_of d) ≡ true =
      ground (arith, ap (λ x. bytes_beq (part_of x) part) same, ap is_wild_of same) in
    rw fits (inl same)
wild_others-In part (cons d children) c (inr below) e w =
    elim (Bool-cases (not (bytes_beq (part_of d) part) && is_wild_of d)) [
      | inl both ↦ rw both (inr (wild_others-In part children c below e w))
      | inr other ↦ rw other (wild_others-In part children c below e w)
    ]

match_children-In :
    (part : List ℕ) (children : Children) (c : Node)
    → IsForest children
    → Listed c children
    → (bytes_beq (part_of c) part || is_wild_part (part_of c)) ≡ true
    → In c (match_children part children)
unfolding match_children
match_children-In part children c f h fits = elim (Bool-cases (bytes_beq (part_of c) part)) [
  | inl same ↦
      In-append_left c (same_part part children) (wild_others part children)
        (same_part-In part children c h ((bytes_beq_iff (part_of c) part).0 same))
  | inr other ↦
      let child = Listed-IsChild c children f h in
      In-append_right c (same_part part children) (wild_others part children) (
        wild_others-In part children c h other
          (ground (arith, wild-is_wild_part (part_of c) (is_wild_of c) child.knows)))
]

first_found-In :
    (look : Node → Option Node) (children : List Node) (c r : Node)
    → In c children
    → look c ≡ some r
    → (s : Node) × (first_found look children ≡ some s)
unfolding first_found
first_found-In look [] c r h e = absurd h
first_found-In look (d ∷ children) c r h e = elim (Option-cases (look d)) [
  | inr (s, found) ↦ (s, rw (found, first_found))
  | inl nothing ↦ elim h [
    | inl same ↦ cc (ap look same, nothing, e)
    | inr below ↦
        let (s, found) = first_found-In look children c r below e in
        (s, rw (nothing, first_found) found)
  ]
]

with_pattern-some : (n : Node) → pattern_of n ≢ [] → with_pattern n ≡ some n
unfolding with_pattern
with_pattern-some n h = ground (arith, bytes_beq_iff (pattern_of n) [])

pub Leads-search :
    (ps xs : List (List ℕ)) (n : Node)
    → IsTree n
    → tail_covers n ps xs ≡ true
    → exact ps n ≢ []
    → (r : Node) × (search xs n ≡ some r)
unfolding search covers exact
Leads-search [] [] n t over ends = (n, with_pattern-some n ends)
Leads-search [] (x ∷ xs) n t over ends = elim (Bool-cases (starred (part_of n))) [
  | inl star ↦ (n, rw star (with_pattern-some n ends))
  | inr plain ↦ absurd (ground arith)
]
Leads-search (p ∷ ps) [] n t over ends = absurd (ground arith)
Leads-search (p ∷ ps) (x ∷ xs) n t over ends = elim (Bool-cases (starred (part_of n))) [
  | inl star ↦ absurd (ground arith)
  | inr plain ↦ elim (Option-cases (match_child p (children_of n))) [
    | inl gone ↦ absurd (ends (rw (gone, exact)))
    | inr (c, matched) ↦
        let forest = IsForest-of n t in
        let (listed, e) = some-match_child p (children_of n) c matched in
        let child = Listed-IsChild c (children_of n) forest listed in
        let over' : covers (p ∷ ps) (x ∷ xs) ≡ true = rw plain at over in
        let fits : (bytes_beq (part_of c) x || is_wild_part (part_of c)) ≡ true =
          rw e (ground arith) in
        let rest : tail_covers c ps xs ≡ true = rw e (ground arith) in
        let ends' : exact ps c ≢ [] = rw (matched, exact) at ends in
        let (s, found) = Leads-search ps xs c child.tree rest ends' in
        rw plain (
          first_found-In (search xs) (match_children x (children_of n)) c s
            (match_children-In x (children_of n) c forest listed fits) found)
  ]
]
