-- ===== src/Http/Router.antt =====
-- libs/yukino_http/router.go: routes by method and pattern. `H` is the type of handlers.
pub mod Parts
pub mod Params
pub mod Lookup
pub mod Found
use yukino_go.Base.{
  ℕ, zero, suc, ◌+◌, Bool, true, false, ◌&&◌, Option, none, some, List, [], ◌∷◌, ◌++◌, nat_beq,
  bytes_beq, ltb, length, drop, if◌then◌else◌, lookup, bytes_eq, Res, ok, panic, ◌>>=◌, index,
}
use yukino_go.Base
use yukino_go.Http.Trie.{T, Node, node, nil, pattern_of, insert, search, starred, travel}

pub record Router (H : Type 0) : Type 0 where
  pub roots : List (List ℕ × Node)
  pub handlers : List (List ℕ × H)

abbrev pub new_router : {H : Type 0} → Router H
new_router = record { roots = []; handlers = [] }

-- A byte before the first piece.
abbrev pub onto : ℕ → List (List ℕ) → List (List ℕ)
onto c [] = (c ∷ []) ∷ []
onto c (piece ∷ rest) = (c ∷ piece) ∷ rest

-- `strings.Split(text, "/")`
unfoldable pub split : List ℕ → List (List ℕ)
split [] = [] ∷ []
split (c ∷ text) = let pieces = split text in if nat_beq c b'/' then [] ∷ pieces else onto c pieces

-- `strings.Join(parts, "/")`
unfoldable pub join : List (List ℕ) → List ℕ
join [] = []
join (p ∷ []) = p
join (p ∷ q ∷ ps) = p ++ b'/' ∷ join (q ∷ ps)

-- The loop of `parsePattern`.
unfoldable pub take_parts : List (List ℕ) → List (List ℕ)
take_parts [] = []
take_parts ([] ∷ items) = take_parts items
take_parts ((c ∷ item) ∷ items) =
    let parts = take_parts items in (c ∷ item) ∷ (if nat_beq c b'*' then [] else parts)

unfoldable pub parse_pattern : List ℕ → List (List ℕ)
parse_pattern pattern = take_parts (split pattern)

abbrev pub empty_node : Node
empty_node = node [] [] nil false

-- The root of a method, which is made where there is none.
abbrev pub or_empty : Option Node → Node
or_empty none = empty_node
or_empty (some root) = root

module _ {H : Type 0} where
  unfoldable pub add_route : List ℕ → List ℕ → H → Router H → T (Router H)
  add_route method pattern handler r = do
    let parts = parse_pattern pattern
    let pattern' = b'/' ∷ join parts
    root' ← insert pattern' parts (or_empty (lookup method r.roots))
    ok (record {
      roots = Base.insert method root' r.roots;
      handlers = Base.insert (method ++ b'-' ∷ pattern') handler r.handlers;
    })

  unfoldable pub get_routes : List ℕ → Router H → List Node
  get_routes method r = elim (lookup method r.roots) [ none ↦ [] | some root ↦ travel root ]

-- The loop of `getRoute` over the parts of the pattern, from an index on.
unfoldable pub params_from :
    List (List ℕ) → ℕ → List (List ℕ) → List (List ℕ × List ℕ) → T (List (List ℕ × List ℕ))
params_from search_parts i [] params = ok params
params_from search_parts i ([] ∷ parts) params = panic
params_from search_parts i ((c ∷ name) ∷ parts) params = do
  named ←
      if nat_beq c b':'
      then (index search_parts i >>= λ value. ok (Base.insert name value params))
      else ok params
  if nat_beq c b'*' && ltb 0 (length name)
      then if ltb (length search_parts) i
        then panic
        else ok (Base.insert name (join (drop i search_parts)) named)
      else params_from search_parts (suc i) parts named

module _ {H : Type 0} where
  -- The node and the parameters, or two nils.
  unfoldable pub get_route : List ℕ → List ℕ → Router H → T (Option (Node × List (List ℕ × List ℕ)))
  get_route method path r = do
    let search_parts = parse_pattern path
    elim (lookup method r.roots) [
      | none ↦ ok none
      | some root ↦ elim (search search_parts root) [
        | none ↦ ok none
        | some n ↦ do
          params ← params_from search_parts 0 (parse_pattern (pattern_of n)) []
          ok (some (n, params))
      ]
    ]
