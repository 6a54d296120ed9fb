-- ===== src/Http/Tests.antt =====
-- Runs of the router, and its theorems at concrete inputs.
use Prim.Native.String.{String}
use Prim.Native.Char.{code}
use yukino_go.Base.{ℕ, ◌≡◌, refl, Option, none, some, List, [], ◌∷◌, ok, ◌>>=◌}
use yukino_go.Http.Trie.{T, Node, node, Children, nil, cons, insert}
use yukino_go.Http.Trie.Routes.{Inserted, insert-Inserted}
use yukino_go.Http.Router.{
  Router, new_router, empty_node, add_route, get_route, parse_pattern, join,
}
use yukino_go.Http.Router.Parts.{IsRoute, parse_pattern-IsRoute, parse_pattern-join}
use yukino_go.Http.Router.Lookup.{matched}
use yukino_go.Http.Router.Found.{add_routes, names, is_some, get_route-matched}

-- The bytes of an ASCII text.
abbrev codes : String → List ℕ
codes String.[] = []
codes (String.◌∷◌ c s) = code c ∷ codes s

abbrev get : List ℕ
get = codes "GET"

-- The handlers are numbers here.
abbrev routes : List (List ℕ × List ℕ × ℕ)
routes =
    (get, codes "/users/:id/posts", 1)
    ∷ (get, codes "/users/me", 2)
    ∷ (get, codes "/static/*path", 3)
    ∷ []

-- A path that goes through `/users/me` has to come back for the wildcard.
abbrev found : List ℕ → T (Option (List (List ℕ × List ℕ)))
found path = do
  r ← add_routes routes new_router
  out ← get_route get path r
  ok (elim out as (λ _. Option (List (List ℕ × List ℕ))) [
    | none ↦ none
    | some (n, params) ↦ some params
  ])

found_run :
    (found (codes "/users/me/posts/") ≡ ok (some ((codes "id", codes "me") ∷ [])))
    × (found (codes "/static/a/b") ≡ ok (some ((codes "path", codes "a/b") ∷ [])))
    × (found (codes "/users/7") ≡ ok none)
unfolding insert add_route get_route parse_pattern join yukino_go.Http.Router.split
    yukino_go.Http.Router.take_parts yukino_go.Http.Router.params_from
    yukino_go.Http.Trie.insert_child yukino_go.Http.Trie.wild yukino_go.Http.Trie.starred
    yukino_go.Http.Trie.search yukino_go.Http.Trie.match_children yukino_go.Http.Trie.same_part
    yukino_go.Http.Trie.wild_others yukino_go.Http.Trie.with_pattern yukino_go.Http.Trie.first_found
found_run = (refl, refl, refl)

get_route-matched_example :
    (r : Router ℕ) × (out : Option (Node × List (List ℕ × List ℕ))) × (add_routes routes new_router
      ≡ ok r)
    × (get_route get (codes "/users/me/posts") r ≡ ok out)
    × (is_some out ≡ matched get (parse_pattern (codes "/users/me/posts")) (names routes))
get_route-matched_example = get_route-matched routes get (codes "/users/me/posts")

abbrev user : List (List ℕ)
user = codes "users" ∷ codes ":id" ∷ []

insert-Inserted_example :
    (n : Node) × (insert (codes "/users/:id") user empty_node ≡ ok n)
    × Inserted (codes "/users/:id") user empty_node n
insert-Inserted_example =
    insert-Inserted (codes "/users/:id") user empty_node (λ e. cc, (λ e. cc, tt))

user-IsRoute : IsRoute user
unfolding parse_pattern yukino_go.Http.Router.split yukino_go.Http.Router.take_parts
user-IsRoute = parse_pattern-IsRoute (codes "/users/:id")

parse_pattern-join_example : parse_pattern (codes "/users/:id") ≡ user
unfolding join
parse_pattern-join_example = parse_pattern-join user user-IsRoute
