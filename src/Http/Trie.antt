-- ===== src/Http/Trie.antt =====
-- libs/yukino_http/trie.go: the tree of routes. `parts[height:]` is a list of the parts that are left.
pub mod Routes
pub mod Forest
pub mod Sound
pub mod Complete
use yukino_go.Base.{
  ℕ, Bool, true, false, not, ◌&&◌, ◌||◌, Option, none, some, List, [], ◌∷◌, ◌++◌, nat_beq,
  bytes_beq, if◌then◌else◌, Res, ok, panic, ◌>>=◌,
}

mutual
  pub data Node : Type 0 where
    node : (pattern part : List ℕ) (children : Children) (is_wild : Bool) → Node

  -- `[]*node`
  pub data Children : Type 0 where
    nil : Children
    cons : Node → Children → Children

abbrev pub T : Type 0 → Type 0
T A = Res (Unit {0}) A

abbrev pub pattern_of : Node → List ℕ
pattern_of (node pattern part children is_wild) = pattern

abbrev pub part_of : Node → List ℕ
part_of (node pattern part children is_wild) = part

abbrev pub children_of : Node → Children
children_of (node pattern part children is_wild) = children

abbrev pub is_wild_of : Node → Bool
is_wild_of (node pattern part children is_wild) = is_wild

-- `part[0] == ':' || part[0] == '*'`
unfoldable pub wild : List ℕ → T Bool
wild [] = panic
wild (c ∷ part) = ok (nat_beq c b':' || nat_beq c b'*')

-- `strings.HasPrefix(part, "*")`
unfoldable pub starred : List ℕ → Bool
starred [] = false
starred (c ∷ part) = nat_beq c b'*'

-- `insert` among the children of a node: `into` goes on in the child of the part, which is made
-- where there is none.
unfoldable pub insert_child : List ℕ → (Node → T Node) → Children → T Children
insert_child part into nil = do
  w ← wild part
  child ← into (node [] part nil w)
  ok (cons child nil)
insert_child part into (cons c children) =
    let there : T Children = into c >>= λ c'. ok (cons c' children) in
    let later = insert_child part into children in
    if bytes_beq (part_of c) part then there else later >>= λ rest. ok (cons c rest)

unfoldable pub insert : List ℕ → List (List ℕ) → Node → T Node
insert pattern [] (node old part children is_wild) = ok (node pattern part children is_wild)
insert pattern (next ∷ parts) (node old part children is_wild) = do
  children' ← insert_child next (insert pattern parts) children
  ok (node old part children' is_wild)

unfoldable pub match_child : List ℕ → Children → Option Node
match_child part nil = none
match_child part (cons c children) =
    if bytes_beq (part_of c) part then some c else match_child part children

-- The two loops of `matchChildren`.
unfoldable pub same_part : List ℕ → Children → List Node
same_part part nil = []
same_part part (cons c children) =
    let rest = same_part part children in if bytes_beq (part_of c) part then c ∷ rest else rest

unfoldable pub wild_others : List ℕ → Children → List Node
wild_others part nil = []
wild_others part (cons c children) =
    let rest = wild_others part children in
    if not (bytes_beq (part_of c) part) && is_wild_of c then c ∷ rest else rest

unfoldable pub match_children : List ℕ → Children → List Node
match_children part children = same_part part children ++ wild_others part children

-- `n`, if it has a pattern.
unfoldable pub with_pattern : Node → Option Node
with_pattern n = if bytes_beq (pattern_of n) [] then none else some n

-- The loop over the children that match.
unfoldable pub first_found : (Node → Option Node) → List Node → Option Node
first_found look [] = none
first_found look (c ∷ children) = elim (look c) [
  | some found ↦ some found
  | none ↦ first_found look children
]

unfoldable pub search : List (List ℕ) → Node → Option Node
search [] n = with_pattern n
search (part ∷ parts) n =
    let below = first_found (search parts) (match_children part (children_of n)) in
    if starred (part_of n) then with_pattern n else below

-- `travel`: the nodes with a pattern, a node before its children.
unfoldable mutual
  pub travel : Node → List Node
  travel (node pattern part children is_wild) =
      (if bytes_beq pattern [] then [] else node pattern part children is_wild ∷ [])
      ++ travel_children children

  pub travel_children : Children → List Node
  travel_children nil = []
  travel_children (cons c children) = travel c ++ travel_children children
