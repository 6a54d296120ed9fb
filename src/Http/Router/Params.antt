-- ===== src/Http/Router/Params.antt =====
-- The parameters of a route that covers the path: no index is out of range.
use yukino_go.Base.{
  insert, bytes_eq, ℕ, zero, suc, ◌<◌, ◌≡◌, inl, inr, refl, ap, ◌∙◌, arith, true, false, some, List,
  [], ◌∷◌, nat_beq, Bool-cases, length, drop, ltb, get_elem?, if◌then◌else◌, ok, index, ◌>>=◌,
}
use yukino_go.Http.Trie.{starred}
use yukino_go.Http.Trie.Sound.{covers, is_empty}
use yukino_go.Http.Router.{join, params_from}
use yukino_go.Http.Router.Parts.{IsRoute}

drop-step :
    (i : ℕ) (xs : List (List ℕ)) (y : List ℕ) (ys : List (List ℕ))
    → drop i xs ≡ y ∷ ys
    → (drop (suc i) xs ≡ ys) × (get_elem? xs i ≡ some y) × (i < length xs)
drop-step zero [] y ys h = cc
drop-step zero (x ∷ xs) y ys h = (cc, cc, omega arith)
drop-step (suc i) [] y ys h = cc
drop-step (suc i) (x ∷ xs) y ys h = let (a, b, c) = drop-step i xs y ys h in (a, b, omega arith)

covers-cons :
    (p : List ℕ) (ps xs : List (List ℕ))
    → covers (p ∷ ps) xs ≡ true
    → (y : List ℕ) × (ys : List (List ℕ)) × (xs ≡ y ∷ ys)
      × ((if starred p then is_empty ps else covers ps ys) ≡ true)
unfolding covers
covers-cons p ps [] h = cc
covers-cons p ps (y ∷ ys) h = (y, ys, refl, ground arith)

empty_list : (ps : List (List ℕ)) → is_empty ps ≡ true → ps ≡ []
empty_list [] h = refl
empty_list (p ∷ ps) h = cc

bind_name :
    (xs : List (List ℕ)) (i c : ℕ) (name : List ℕ) (params : List (List ℕ × List ℕ)) (y : List ℕ)
    → get_elem? xs i ≡ some y
    → (v : List (List ℕ × List ℕ)) × ((if nat_beq c b':'
          then (index {E = Unit {0}} xs i >>= λ value. ok (insert name value params))
          else ok params)
        ≡ ok v)
bind_name xs i c name params y at = elim (Bool-cases (nat_beq c b':')) [
  | inl colon ↦ (insert name y params, rw (colon, at))
  | inr other ↦ (params, rw other)
]

pub params_from_total :
    (xs : List (List ℕ)) (i : ℕ) (ps : List (List ℕ)) (params : List (List ℕ × List ℕ))
    → IsRoute ps
    → covers ps (drop i xs) ≡ true
    → (out : List (List ℕ × List ℕ)) × (params_from xs i ps params ≡ ok out)
unfolding params_from starred
params_from_total xs i [] params r h = (params, refl)
params_from_total xs i ([] ∷ ps) params r h = absurd (r.0 refl)
params_from_total xs i ((c ∷ name) ∷ ps) params r h =
    let (y, ys, is, rest) = covers-cons (c ∷ name) ps (drop i xs) h in
    let (next, at, inside) = drop-step i xs y ys is in
    let in_range : ltb (length xs) i ≡ false = ground arith in
    let (v, bound) = bind_name xs i c name params y at in
    elim (Bool-cases (nat_beq c b'*')) [
      | inl star ↦ elim (Bool-cases (ltb 0 (length name))) [
        | inl named ↦ (insert name (join (drop i xs)) v, rw (bound, star, named, in_range))
        | inr bare ↦ let last = empty_list ps (rw star at rest) in (v, rw (bound, star, bare, last))
      ]
      | inr plain ↦
          let covered : covers ps ys ≡ true = rw plain at rest in
          let (out, did) = params_from_total xs (suc i) ps v r.3 (ap (covers ps) next ∙ covered) in
          (out, rw (bound, plain) did)
    ]
