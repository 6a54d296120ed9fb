-- ===== src/Http/Router/Lookup.antt =====
-- The router against the list of the routes that were added.
use mathlib.Core.Path.{subst}
use yukino_go.Base.{
  ℕ, ◌≡◌, ◌≢◌, ◌⊎◌, inl, inr, refl, sym, ap, ◌∙◌, arith, Bool, true, false, not, ◌&&◌, ◌||◌, Option,
  none, some, List, [], ◌∷◌, ◌++◌, nat_beq, bytes_beq, bytes_beq_iff, Bool-cases, Option-cases,
  lookup, bytes_eq, lookup-insert, if◌then◌else◌, Res, ok, panic, ◌>>=◌,
}
use yukino_go.Base
use yukino_go.Http.Trie.{Node, part_of}
use yukino_go.Http.Trie.Routes.{exact, exact_leaf, parts_beq, insert-Inserted}
use yukino_go.Http.Trie.Forest.{IsTree, insert-IsTree}
use yukino_go.Http.Trie.Sound.{covers}
use yukino_go.Http.Router.{Router, new_router, or_empty, join, parse_pattern, add_route}
use yukino_go.Http.Router.Parts.{IsRoute, IsRoute-IsNamed, parse_pattern-IsRoute}

-- The routes that were added, as methods and patterns, the last one first.
abbrev pub Added : Type 0
Added = List (List ℕ × List ℕ)

-- A route of these parts was added.
abbrev pub registered : List ℕ → List (List ℕ) → Added → Bool
registered method qs [] = false
registered method qs ((m, pattern) ∷ added) =
    bytes_beq m method && parts_beq (parse_pattern pattern) qs || registered method qs added

-- A route that was added covers the path.
abbrev pub matched : List ℕ → List (List ℕ) → Added → Bool
matched method xs [] = false
matched method xs ((m, pattern) ∷ added) =
    bytes_beq m method && covers (parse_pattern pattern) xs || matched method xs added

abbrev pub root_in : List ℕ → List (List ℕ × Node) → Node
root_in method roots = or_empty (lookup method roots)

abbrev pub root_of : {H : Type 0} → List ℕ → Router H → Node
root_of method r = root_in method r.roots

root_in-insert :
    (method m : List ℕ) (n : Node) (roots : List (List ℕ × Node))
    → root_in m (Base.insert method n roots) ≡ (if bytes_beq method m then n else root_in m roots)
root_in-insert method m n roots = elim (Bool-cases (bytes_beq method m)) [
  | inl same ↦
      let new : lookup m (Base.insert method n roots) ≡ some n =
        lookup-insert method m n roots ∙ rw same in
      ap or_empty new ∙ rw same
  | inr other ↦
      let old : lookup m (Base.insert method n roots) ≡ lookup m roots =
        lookup-insert method m n roots ∙ rw other in
      ap or_empty old ∙ rw other
]

-- The trees of the router hold the routes that were added, and no other.
pub record Holds {H : Type 0} (added : Added) (r : Router H) : Type 0 where
  pub tree : (method : List ℕ) → IsTree (root_of method r)
  pub plain : (method : List ℕ) → part_of (root_of method r) ≡ []
  pub routes :
      (method : List ℕ) (qs : List (List ℕ))
      → exact qs (root_of method r) ≡ (if registered method qs added then b'/' ∷ join qs else [])

parts_beq_iff : (ps qs : List (List ℕ)) → parts_beq ps qs ≡ true → ps ≡ qs
parts_beq_iff [] [] h = refl
parts_beq_iff [] (q ∷ qs) h = cc
parts_beq_iff (p ∷ ps) [] h = cc
parts_beq_iff (p ∷ ps) (q ∷ qs) h = ground (arith, bytes_beq_iff p q, parts_beq_iff ps qs)

parts_beq_refl : (ps : List (List ℕ)) → parts_beq ps ps ≡ true
parts_beq_refl [] = refl
parts_beq_refl (p ∷ ps) = ground (arith, bytes_beq_iff p p, parts_beq_refl ps)

pub registered-IsRoute :
    (method : List ℕ) (qs : List (List ℕ)) (added : Added)
    → registered method qs added ≡ true
    → IsRoute qs
registered-IsRoute method qs [] h = cc
registered-IsRoute method qs ((m, pattern) ∷ added) h =
    elim (Bool-cases (bytes_beq m method && parts_beq (parse_pattern pattern) qs)) [
      | inl this ↦
          let e = parts_beq_iff (parse_pattern pattern) qs (ground arith) in
          subst IsRoute e (parse_pattern-IsRoute pattern)
      | inr other ↦ registered-IsRoute method qs added (rw other at h)
    ]

pub matched-registered :
    (method : List ℕ) (xs : List (List ℕ)) (added : Added)
    → matched method xs added ≡ true
    → (qs : List (List ℕ)) × (registered method qs added ≡ true) × (covers qs xs ≡ true)
matched-registered method xs [] h = cc
matched-registered method xs ((m, pattern) ∷ added) h =
    elim (Bool-cases (bytes_beq m method && covers (parse_pattern pattern) xs)) [
      | inl this ↦ (
        parse_pattern pattern,
        ground (arith, parts_beq_refl (parse_pattern pattern)),
        ground arith,
      )
      | inr other ↦
          let (qs, is, c) = matched-registered method xs added (rw other at h) in
          (qs, ground arith, c)
    ]

pub registered-matched :
    (method : List ℕ) (qs xs : List (List ℕ)) (added : Added)
    → registered method qs added ≡ true
    → covers qs xs ≡ true
    → matched method xs added ≡ true
registered-matched method qs xs [] h c = h
registered-matched method qs xs ((m, pattern) ∷ added) h c =
    elim (Bool-cases (bytes_beq m method && parts_beq (parse_pattern pattern) qs)) [
      | inl this ↦
          let e = parts_beq_iff (parse_pattern pattern) qs (ground arith) in
          ground (arith, ap (λ ps. covers ps xs) e)
      | inr other ↦ ground (arith, registered-matched method qs xs added)
    ]

pub new_router-Holds : {H : Type 0} → Holds {H = H} [] new_router
unfolding IsTree
new_router-Holds = record {
  tree = λ method. tt;
  plain = λ method. refl;
  routes = λ method qs. exact_leaf [] false qs;
}

module _ {H : Type 0} where
  -- Adding a route returns, and registers it.
  pub add_route-Holds :
      (method pattern : List ℕ) (handler : H) (added : Added) (r : Router H)
      → Holds added r
      → (r' : Router H) × (add_route method pattern handler r ≡ ok r')
        × Holds ((method, pattern) ∷ added) r'
  unfolding add_route
  add_route-Holds method pattern handler added r h =
      let parts = parse_pattern pattern in
      let pattern' = b'/' ∷ join parts in
      let root = root_of method r in
      let named = IsRoute-IsNamed parts (parse_pattern-IsRoute pattern) in
      let (root', did, i) = insert-Inserted pattern' parts root named in
      let (tree, same_part, same_wild) =
        insert-IsTree pattern' parts root root' did (h.tree method) in
      let r' : Router H = record {
        roots = Base.insert method root' r.roots;
        handlers = Base.insert (method ++ b'-' ∷ pattern') handler r.handlers;
      } in
      (
        r',
        rw did,
        record {
          tree = λ m. elim (Bool-cases (bytes_beq method m)) [
            | inl same ↦ subst IsTree (sym (root_in-insert method m root' r.roots ∙ rw same)) tree
            | inr other ↦
                subst IsTree (sym (root_in-insert method m root' r.roots ∙ rw other)) (h.tree m)
          ];
          plain = λ m.
              ap part_of (root_in-insert method m root' r.roots)
              ∙ elim (Bool-cases (bytes_beq method m)) [
                | inl same ↦ rw same (same_part ∙ h.plain method)
                | inr other ↦ rw other (h.plain m)
              ];
          routes = λ m qs.
              ap (exact qs) (root_in-insert method m root' r.roots)
              ∙ elim (Bool-cases (bytes_beq method m)) [
                | inl same ↦
                    let e = (bytes_beq_iff method m).0 same in
                    let old = h.routes method qs in
                    elim (Bool-cases (parts_beq parts qs)) [
                      | inl this ↦
                          let here : pattern' ≡ b'/' ∷ join qs =
                            ap (λ x. b'/' ∷ join x) (parts_beq_iff parts qs this) in
                          rw (same, this) (i.routes qs ∙ rw this here)
                      | inr that ↦
                          rw (same, that)
                            (i.routes qs
                              ∙ rw that (
                                  old
                                  ∙ ap (λ x. if registered x qs added then b'/' ∷ join qs else [])
                                      e))
                    ]
                | inr other ↦ rw other (h.routes m qs)
              ];
        },
      )
