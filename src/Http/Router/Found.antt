-- ===== src/Http/Router/Found.antt =====
-- What `getRoute` finds.
use yukino_go.Base.{
  ℕ, ◌≡◌, inl, inr, refl, sym, ap, ◌∙◌, Bool, true, false, Option, none, some, List, [], ◌∷◌,
  Bool-cases, Option-cases, lookup, bytes_eq, ok, ◌>>=◌,
}
use yukino_go.Http.Trie.{T, Node, node, nil, pattern_of, part_of, insert, search, starred}
use yukino_go.Http.Trie.Sound.{covers, search-Leads}
use yukino_go.Http.Trie.Complete.{Leads-search}
use yukino_go.Http.Router.{
  Router, new_router, empty_node, or_empty, join, parse_pattern, add_route, get_route,
}
use yukino_go.Http.Router.Parts.{parse_pattern-join}
use yukino_go.Http.Router.Params.{params_from_total}
use yukino_go.Http.Router.Lookup.{
  Added, registered, matched, root_of, Holds, registered-IsRoute, matched-registered,
  registered-matched, new_router-Holds, add_route-Holds,
}

search_empty : (xs : List (List ℕ)) → search xs empty_node ≡ none
unfolding search yukino_go.Http.Trie.with_pattern yukino_go.Http.Trie.first_found
    yukino_go.Http.Trie.match_children yukino_go.Http.Trie.same_part yukino_go.Http.Trie.wild_others
    starred
search_empty [] = refl
search_empty (x ∷ xs) = refl

abbrev pub is_some : {A : Type 0} → Option A → Bool
is_some none = false
is_some (some a) = true

module _ {H : Type 0} (added : Added) (r : Router H) (h : Holds added r) (method : List ℕ)
    (xs : List (List ℕ)) where
  -- A node that is found has a route that was added and covers the path.
  found-registered :
      (n : Node)
      → search xs (root_of method r) ≡ some n
      → (qs : List (List ℕ)) × (registered method qs added ≡ true)
        × (covers qs xs ≡ true)
        × (pattern_of n ≡ b'/' ∷ join qs)
  found-registered n found =
      let l = search-Leads xs (root_of method r) n (h.tree method) found in
      let at = h.routes method l.route in
      let over = l.over in
      let ends = l.ends in
      let way = l.at in
      let plain : starred (part_of (root_of method r)) ≡ false =
        unfold starred in rw (h.plain method) in
      elim (Bool-cases (registered method l.route added)) [
        | inl is ↦ (l.route, is, rw plain at over, sym way ∙ at ∙ rw is)
        | inr isnt ↦ absurd (ends (sym way ∙ at ∙ rw isnt))
      ]

  registered_found :
      (qs : List (List ℕ))
      → registered method qs added ≡ true
      → covers qs xs ≡ true
      → (n : Node) × (search xs (root_of method r) ≡ some n)
  registered_found qs is c =
      let plain : starred (part_of (root_of method r)) ≡ false =
        unfold starred in rw (h.plain method) in
      let at = h.routes method qs ∙ rw is in
      Leads-search qs xs (root_of method r) (h.tree method) (rw plain c)
        (λ e. let bad : b'/' ∷ join qs ≡ [] = sym at ∙ e in cc)

  search-matched : is_some (search xs (root_of method r)) ≡ matched method xs added
  search-matched = elim (Option-cases (search xs (root_of method r))) [
    | inl nothing ↦ elim (Bool-cases (matched method xs added)) [
      | inl some_route ↦
          let (qs, is, c) = matched-registered method xs added some_route in
          let (n, found) = registered_found qs is c in cc
      | inr no_route ↦ rw (nothing, no_route)
    ]
    | inr (n, found) ↦
        let (qs, is, c, p) = found-registered n found in
        rw (found, registered-matched method qs xs added is c)
  ]

module _ {H : Type 0} (added : Added) (r : Router H) (h : Holds added r)
    (method path : List ℕ) where
  get_route_total :
      (out : Option (Node × List (List ℕ × List ℕ))) × (get_route method path r ≡ ok out)
      × (is_some out ≡ matched method (parse_pattern path) added)
  unfolding get_route
  get_route_total =
      let xs = parse_pattern path in
      let s = search-matched added r h method xs in
      elim (Option-cases (lookup method r.roots)) [
        | inl no_root ↦
            let root : root_of method r ≡ empty_node = ap or_empty no_root in
            (
              none,
              rw (no_root, get_route),
              ap is_some (sym (ap (search xs) root ∙ search_empty xs)) ∙ s,
            )
        | inr (root, has) ↦
            let same : root_of method r ≡ root = ap or_empty has in
            elim (Option-cases (search xs root)) [
              | inl nothing ↦ (
                none,
                rw (has, get_route, nothing),
                ap is_some (sym (ap (search xs) same ∙ nothing)) ∙ s,
              )
              | inr (n, found) ↦
                  let (qs, is, c, p) =
                    found-registered added r h method xs n (ap (search xs) same ∙ found) in
                  let route = registered-IsRoute method qs added is in
                  let parts : parse_pattern (pattern_of n) ≡ qs =
                    ap parse_pattern p ∙ parse_pattern-join qs route in
                  let (params, did) = params_from_total xs 0 qs [] route c in
                  (
                    some (n, params),
                    rw (has, get_route, found, parts, did),
                    ap is_some (sym (ap (search xs) same ∙ found)) ∙ s,
                  )
            ]
      ]

-- `addRoute` for each route.
abbrev pub add_routes : {H : Type 0} → List (List ℕ × List ℕ × H) → Router H → T (Router H)
add_routes [] r = ok r
add_routes ((method, pattern, handler) ∷ routes) r =
    add_routes routes r >>= λ r'. add_route method pattern handler r'

abbrev pub names : {H : Type 0} → List (List ℕ × List ℕ × H) → Added
names [] = []
names ((method, pattern, handler) ∷ routes) = (method, pattern) ∷ names routes

add_routes-Holds :
    {H : Type 0} (routes : List (List ℕ × List ℕ × H))
    → (r : Router H) × (add_routes routes new_router ≡ ok r) × Holds (names routes) r
add_routes-Holds [] = (new_router, refl, new_router-Holds)
add_routes-Holds ((method, pattern, handler) ∷ routes) =
    let (r, did, h) = add_routes-Holds routes in
    let (r', did', h') = add_route-Holds method pattern handler (names routes) r h in
    (r', rw did did', h')

-- Adding any routes to a new router returns, and getRoute then never panics: it finds a node exactly
-- when a route of the method covers the parts of the path, part by part, wildcards included.
pub get_route-matched :
    {H : Type 0} (routes : List (List ℕ × List ℕ × H)) (method path : List ℕ)
    → (r : Router H) × (out : Option (Node × List (List ℕ × List ℕ))) × (add_routes routes
          new_router
        ≡ ok r)
      × (get_route method path r ≡ ok out)
      × (is_some out ≡ matched method (parse_pattern path) (names routes))
get_route-matched routes method path =
    let (r, did, h) = add_routes-Holds routes in
    let (out, got, same) = get_route_total (names routes) r h method path in
    (r, out, did, got, same)
