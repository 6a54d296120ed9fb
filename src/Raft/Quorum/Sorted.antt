-- ===== src/Raft/Quorum/Sorted.antt =====
-- The descending sort of `maybeCommit`: it keeps the elements, and the element at position k has k
-- or fewer above it and more than k that reach it.
use yukino_go.Base.{
  ℕ, zero, suc, ◌≤◌, ◌<◌, ◌≡◌, refl, arith, Bool, some, List, [], ◌∷◌, leb, ltb, count_if,
  get_elem?,
}
use yukino_go.Raft.Quorum.{insert_desc, sort_desc}

-- No element of the list is above `b`.
abbrev IsBelow : ℕ → List ℕ → Type 0
IsBelow b [] = Unit {0}
IsBelow b (x ∷ xs) = (x ≤ b) × IsBelow b xs

abbrev IsDesc : List ℕ → Type 0
IsDesc [] = Unit {0}
IsDesc (x ∷ xs) = IsBelow x xs × IsDesc xs

IsBelow-mono : (a b : ℕ) (xs : List ℕ) → a ≤ b → IsBelow a xs → IsBelow b xs
IsBelow-mono a b [] h k = tt
IsBelow-mono a b (x ∷ xs) h k = (omega arith, IsBelow-mono a b xs h k.1)

IsBelow-insert_desc : (b a : ℕ) (xs : List ℕ) → a ≤ b → IsBelow b xs → IsBelow b (insert_desc a xs)
unfolding insert_desc
IsBelow-insert_desc b a [] h k = (h, tt)
IsBelow-insert_desc b a (x ∷ xs) h k = ground (arith, IsBelow-insert_desc b a xs)

insert_desc-IsDesc : (a : ℕ) (xs : List ℕ) → IsDesc xs → IsDesc (insert_desc a xs)
unfolding insert_desc
insert_desc-IsDesc a [] h = (tt, tt)
insert_desc-IsDesc a (x ∷ xs) h =
    ground (arith, insert_desc-IsDesc a xs, IsBelow-insert_desc x a xs, IsBelow-mono x a xs)

pub sort_desc-IsDesc : (xs : List ℕ) → IsDesc (sort_desc xs)
unfolding sort_desc
sort_desc-IsDesc [] = tt
sort_desc-IsDesc (x ∷ xs) = insert_desc-IsDesc x (sort_desc xs) (sort_desc-IsDesc xs)

count_if-insert_desc :
    (p : ℕ → Bool) (a : ℕ) (xs : List ℕ) → count_if p (insert_desc a xs) ≡ count_if p (a ∷ xs)
unfolding insert_desc
count_if-insert_desc p a [] = refl
count_if-insert_desc p a (x ∷ xs) = ground (arith, count_if-insert_desc p a xs)

pub count_if-sort_desc : (p : ℕ → Bool) (xs : List ℕ) → count_if p (sort_desc xs) ≡ count_if p xs
unfolding sort_desc
count_if-sort_desc p [] = refl
count_if-sort_desc p (x ∷ xs) =
    ground (arith, count_if-insert_desc p x (sort_desc xs), count_if-sort_desc p xs)

count_if-above : (b v : ℕ) (xs : List ℕ) → b ≤ v → IsBelow b xs → count_if (ltb v) xs ≡ 0
count_if-above b v [] h k = refl
count_if-above b v (x ∷ xs) h k = ground (arith, count_if-above b v xs)

get_elem?-IsBelow : (b v k : ℕ) (xs : List ℕ) → IsBelow b xs → get_elem? xs k ≡ some v → v ≤ b
get_elem?-IsBelow b v k [] h e = cc
get_elem?-IsBelow b v zero (x ∷ xs) h e = ground arith
get_elem?-IsBelow b v (suc k) (x ∷ xs) h e = get_elem?-IsBelow b v k xs h.1 e

pub count_if-reach :
    (v k : ℕ) (xs : List ℕ) → IsDesc xs → get_elem? xs k ≡ some v → k < count_if (leb v) xs
count_if-reach v k [] h e = cc
count_if-reach v zero (x ∷ xs) h e = ground arith
count_if-reach v (suc k) (x ∷ xs) h e =
    ground (arith, count_if-reach v k xs, get_elem?-IsBelow x v k xs)

pub count_if-beyond :
    (v k : ℕ) (xs : List ℕ) → IsDesc xs → get_elem? xs k ≡ some v → count_if (ltb v) xs ≤ k
count_if-beyond v k [] h e = cc
count_if-beyond v zero (x ∷ xs) h e = ground (arith, count_if-above x v xs)
count_if-beyond v (suc k) (x ∷ xs) h e = ground (arith, count_if-beyond v k xs)
