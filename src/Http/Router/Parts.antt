-- ===== src/Http/Router/Parts.antt =====
-- The parts of a pattern, and the pattern of its parts.
use yukino_go.Base.{
  ℕ, ◌≡◌, ◌≢◌, ◌⊎◌, inl, inr, refl, arith, false, List, [], ◌∷◌, ◌++◌, nat_beq, Bool-cases, All,
}
use yukino_go.Http.Trie.{starred}
use yukino_go.Http.Trie.Routes.{IsNamed}
use yukino_go.Http.Router.{onto, split, join, take_parts, parse_pattern}

abbrev pub NoSlash : List ℕ → Type 0
NoSlash = All (λ c. nat_beq c b'/' ≡ false)

-- The parts of a route: named, in one piece, and with a star in the last only.
abbrev pub IsRoute : List (List ℕ) → Type 0
IsRoute [] = Unit
IsRoute (p ∷ ps) = (p ≢ []) × NoSlash p × ((starred p ≡ false) ⊎ (ps ≡ [])) × IsRoute ps

pub IsRoute-IsNamed : (ps : List (List ℕ)) → IsRoute ps → IsNamed ps
IsRoute-IsNamed [] h = tt
IsRoute-IsNamed (p ∷ ps) h = (h.0, IsRoute-IsNamed ps h.3)

onto-NoSlash :
    (c : ℕ) (pieces : List (List ℕ))
    → nat_beq c b'/' ≡ false
    → All NoSlash pieces
    → All NoSlash (onto c pieces)
onto-NoSlash c [] e h = ((e, tt), tt)
onto-NoSlash c (piece ∷ rest) e h = ((e, h.0), h.1)

split-NoSlash : (text : List ℕ) → All NoSlash (split text)
unfolding split
split-NoSlash [] = (tt, tt)
split-NoSlash (c ∷ text) = elim (Bool-cases (nat_beq c b'/')) [
  | inl slash ↦ rw slash (tt, split-NoSlash text)
  | inr other ↦ rw other (onto-NoSlash c (split text) other (split-NoSlash text))
]

take_parts-IsRoute : (items : List (List ℕ)) → All NoSlash items → IsRoute (take_parts items)
unfolding take_parts starred
take_parts-IsRoute [] h = tt
take_parts-IsRoute ([] ∷ items) h = take_parts-IsRoute items h.1
take_parts-IsRoute ((c ∷ item) ∷ items) h = elim (Bool-cases (nat_beq c b'*')) [
  | inl star ↦ rw star ((λ e. cc), h.0, inr refl, tt)
  | inr plain ↦ rw plain ((λ e. cc), h.0, inl refl, take_parts-IsRoute items h.1)
]

pub parse_pattern-IsRoute : (text : List ℕ) → IsRoute (parse_pattern text)
unfolding parse_pattern
parse_pattern-IsRoute text = take_parts-IsRoute (split text) (split-NoSlash text)

split_piece : (p : List ℕ) → NoSlash p → split p ≡ p ∷ []
unfolding split
split_piece [] h = refl
split_piece (c ∷ p) h = rw (h.0, split_piece p h.1)

split-append : (p rest : List ℕ) → NoSlash p → split (p ++ b'/' ∷ rest) ≡ p ∷ split rest
unfolding split
split-append [] rest h = refl
split-append (c ∷ p) rest h = rw (h.0, split-append p rest h.1)

take_parts-join : (ps : List (List ℕ)) → IsRoute ps → take_parts (split (join ps)) ≡ ps
unfolding take_parts join split starred
take_parts-join [] h = refl
take_parts-join ([] ∷ ps) h = absurd (h.0 refl)
take_parts-join ((c ∷ p) ∷ []) h = rw (split_piece (c ∷ p) h.1) (ground arith)
take_parts-join ((c ∷ p) ∷ q ∷ ps) h =
    rw (split-append (c ∷ p) (join (q ∷ ps)) h.1, take_parts-join (q ∷ ps) h.3)
      (elim h.2 [ inl plain ↦ rw plain | inr alone ↦ cc ])

-- The parts of the pattern that `addRoute` stores are the parts that it parsed.
pub parse_pattern-join : (ps : List (List ℕ)) → IsRoute ps → parse_pattern (b'/' ∷ join ps) ≡ ps
unfolding parse_pattern split take_parts
parse_pattern-join ps h = take_parts-join ps h
