-- ===== src/Http/Trie/Sound.antt =====
-- What `search` finds covers the path.
use yukino_go.Base.{
  ℕ, ◌≡◌, ◌≢◌, ◌⊎◌, inl, inr, refl, sym, ap, ◌∙◌, arith, Bool, true, false, not, ◌&&◌, ◌||◌, Option,
  none, some, List, [], ◌∷◌, nat_beq, bytes_beq, bytes_beq_iff, Bool-cases, Option-cases, In,
  In-append, if◌then◌else◌, ok,
}
use yukino_go.Http.Trie.{
  Node, node, Children, nil, cons, pattern_of, part_of, children_of, is_wild_of, wild, starred,
  match_children, same_part, wild_others, with_pattern, first_found, search,
}
use yukino_go.Http.Trie.Routes.{exact}
use yukino_go.Http.Trie.Forest.{IsTree, IsForest, Listed, IsChild, Listed-IsChild}

-- A part of a route that begins with ':' or '*'.
abbrev pub is_wild_part : List ℕ → Bool
is_wild_part [] = false
is_wild_part (c ∷ part) = nat_beq c b':' || nat_beq c b'*'

abbrev pub is_empty : List (List ℕ) → Bool
is_empty [] = true
is_empty (p ∷ ps) = false

-- A route covers a path: part by part they are equal or the route's is wild; a part with a star is
-- the route's last, and takes the rest of the path.
unfoldable pub covers : List (List ℕ) → List (List ℕ) → Bool
covers [] [] = true
covers [] (x ∷ xs) = false
covers (p ∷ ps) [] = false
covers (p ∷ ps) (x ∷ xs) =
    let rest = covers ps xs in
    (bytes_beq p x || is_wild_part p) && (if starred p then is_empty ps else rest)

-- What is left of a route, below a node whose part is taken.
abbrev pub tail_covers : Node → List (List ℕ) → List (List ℕ) → Bool
tail_covers n ps xs = if starred (part_of n) then is_empty ps else covers ps xs

pub wild-is_wild_part : (part : List ℕ) (w : Bool) → wild part ≡ ok w → is_wild_part part ≡ w
unfolding wild
wild-is_wild_part [] w h = cc
wild-is_wild_part (c ∷ part) w h = cc

In-same_part :
    (part : List ℕ) (children : Children) (c : Node)
    → In c (same_part part children)
    → Listed c children × (part_of c ≡ part)
unfolding same_part Listed
In-same_part part nil c h = absurd h
In-same_part part (cons d children) c h = elim (Bool-cases (bytes_beq (part_of d) part)) [
  | inl same ↦
      let h' : (d ≡ c) ⊎ In c (same_part part children) = rw same at h in
      elim h' [
        | inl e ↦ (inl e, ap part_of (sym e) ∙ (bytes_beq_iff (part_of d) part).0 same)
        | inr below ↦ let r = In-same_part part children c below in (inr r.0, r.1)
      ]
  | inr other ↦ let r = In-same_part part children c (rw other at h) in (inr r.0, r.1)
]

In-wild_others :
    (part : List ℕ) (children : Children) (c : Node)
    → In c (wild_others part children)
    → Listed c children × (is_wild_of c ≡ true)
unfolding wild_others Listed
In-wild_others part nil c h = absurd h
In-wild_others part (cons d children) c h =
    elim (Bool-cases (not (bytes_beq (part_of d) part) && is_wild_of d)) [
      | inl both ↦
          let h' : (d ≡ c) ⊎ In c (wild_others part children) = rw both at h in
          elim h' [
            | inl e ↦ (inl e, ap is_wild_of (sym e) ∙ ground arith)
            | inr below ↦ let r = In-wild_others part children c below in (inr r.0, r.1)
          ]
      | inr other ↦ let r = In-wild_others part children c (rw other at h) in (inr r.0, r.1)
    ]

-- A child that `search` looks into is a child, and its part fits.
pub In-match_children :
    (part : List ℕ) (children : Children) (c : Node)
    → IsForest children
    → In c (match_children part children)
    → IsChild c children × ((bytes_beq (part_of c) part || is_wild_part (part_of c)) ≡ true)
unfolding match_children
In-match_children part children c f h =
    elim (In-append c (same_part part children) (wild_others part children) h) [
      | inl same ↦
          let (listed, e) = In-same_part part children c same in
          (Listed-IsChild c children f listed, ground (arith, bytes_beq_iff (part_of c) part))
      | inr other ↦
          let (listed, w) = In-wild_others part children c other in
          let child = Listed-IsChild c children f listed in
          (child, ground (arith, wild-is_wild_part (part_of c) (is_wild_of c) child.knows))
    ]

first_found-some :
    (look : Node → Option Node) (children : List Node) (r : Node)
    → first_found look children ≡ some r
    → (c : Node) × In c children × (look c ≡ some r)
unfolding first_found
first_found-some look [] r h = cc
first_found-some look (c ∷ children) r h = elim (Option-cases (look c)) [
  | inl nothing ↦
      let (d, i, found) = first_found-some look children r (rw (nothing, first_found) at h) in
      (d, inr i, found)
  | inr (x, found) ↦ let e : x ≡ r = ground arith in (c, inl refl, found ∙ ap some e)
]

-- A route of the tree that leads to a node from below another, over a path.
pub record Leads (n : Node) (xs : List (List ℕ)) (r : Node) : Type 0 where
  pub route : List (List ℕ)
  pub over : tail_covers n route xs ≡ true
  pub at : exact route n ≡ pattern_of r
  pub ends : pattern_of r ≢ []

here :
    (n r : Node) (xs : List (List ℕ))
    → tail_covers n [] xs ≡ true
    → with_pattern n ≡ some r
    → Leads n xs r
unfolding with_pattern exact
here n r xs t h = elim (Bool-cases (bytes_beq (pattern_of n) [])) [
  | inl nothing ↦ let h' : none ≡ some r = rw nothing at h in cc
  | inr something ↦
      let h' : some n ≡ some r = rw something at h in
      let e : n ≡ r = cc in
      record {
        route = [];
        over = t;
        at = ap pattern_of e;
        ends =
            λ empty. cc (something, (bytes_beq_iff (pattern_of n) []).1 (ap pattern_of e ∙ empty));
      }
]

pub IsForest-of : (n : Node) → IsTree n → IsForest (children_of n)
unfolding IsTree
IsForest-of (node pattern part children w) t = t

pub search-Leads :
    (xs : List (List ℕ)) (n r : Node) → IsTree n → search xs n ≡ some r → Leads n xs r
unfolding search covers exact
search-Leads [] n r t h = here n r [] (ground arith) h
search-Leads (x ∷ xs) n r t h = elim (Bool-cases (starred (part_of n))) [
  | inl star ↦ here n r (x ∷ xs) (rw star) (rw star at h)
  | inr plain ↦
      let (c, mem, found) =
        first_found-some (search xs) (match_children x (children_of n)) r (rw plain at h) in
      let (child, fits) = In-match_children x (children_of n) c (IsForest-of n t) mem in
      let below = search-Leads xs c r child.tree found in
      record {
        route = part_of c ∷ below.route;
        over = rw (plain, fits) below.over;
        at = rw (child.matched, exact) below.at;
        ends = below.ends;
      }
]
