-- ===== src/Rpc/Balance/Weights.antt =====
-- The weights of the weighted balancer.
use yukino_go.Base.{
  ℕ, zero, suc, ◌+◌, ◌%◌, ◌^◌, ◌<◌, ◌≡◌, refl, sym, ap, ◌∙◌, arith, inl, inr, Bool-cases, true,
  false, Option, none, some, List, [], ◌∷◌, length, set, map, drop, get_elem?, get_elem?-lt,
  length-set, drop-length, ◌⊎◌, nat_beq, add64, sub64, ok, In,
}
use yukino_go.Rpc.Balance.{
  Instance, WeightedRr, new_weighted_rr, total, better, add_weights, take_best, select, negative,
  not_negative, gt_s64,
}

unfoldable pub sum : List ℕ → ℕ
sum [] = 0
sum (x ∷ xs) = x + sum xs

sum-set : (xs : List ℕ) (i v x : ℕ) → get_elem? xs i ≡ some x → sum (set xs i v) + x ≡ sum xs + v
unfolding sum
sum-set [] i v x h = cc
sum-set (y ∷ xs) zero v x h = let e : y ≡ x = cc in omega (arith, e)
sum-set (y ∷ xs) (suc i) v x h = omega (arith, sum-set xs i v x h)

sum-drop :
    (xs : List ℕ) (i x : ℕ) → get_elem? xs i ≡ some x → sum (drop i xs) ≡ x + sum (drop (i + 1) xs)
unfolding sum
sum-drop [] i x h = cc
sum-drop (y ∷ xs) zero x h = let e : y ≡ x = cc in omega (arith, e)
sum-drop (y ∷ xs) (suc i) x h =
    let e : suc i + 1 ≡ suc (i + 1) = omega arith in rw e (sum-drop xs i x h)

-- The current weights of the instances sum to zero, as words.
pub record IsBalanced (w : WeightedRr) : Type 0 where
  pub same_length : length w.current_weight ≡ length w.weights
  pub whole : w.total_weight ≡ sum w.weights % 2 ^ 64
  pub zero_sum : sum w.current_weight % 2 ^ 64 ≡ 0

get_elem?-In : (xs : List Instance) (i : ℕ) (x : Instance) → get_elem? xs i ≡ some x → In x xs
get_elem?-In [] i x h = cc
get_elem?-In (y ∷ xs) zero x h = inl cc
get_elem?-In (y ∷ xs) (suc i) x h = inr (get_elem?-In xs i x h)

better-lt :
    (i n : ℕ) (best : Option ℕ) (current : List ℕ)
    → i < length current
    → length current ≡ n
    → ((j : ℕ) → best ≡ some j → j < n)
    → (k : ℕ) × (better i best current ≡ ok k) × (k < n)
unfolding better
better-lt i n none current h len below = (i, refl, omega arith)
better-lt i n (some j) current h len below =
    let low = below j refl in
    let (a, ea) = get_elem?-lt current i h in
    let (b, eb) = get_elem?-lt current j (omega arith) in
    elim (Bool-cases (gt_s64 a b)) [
      | inl gt ↦ (i, rw (ea, eb, gt), omega arith)
      | inr le ↦ (j, rw (ea, eb, le), low)
    ]

add_weights-sum :
    (weights : List ℕ) (list : List Instance) (i : ℕ) (best : Option ℕ) (current : List ℕ)
    → i + length list ≡ length weights
    → length current ≡ length weights
    → ((j : ℕ) → best ≡ some j → j < length weights)
    → (0 < length list) ⊎ ((j : ℕ) × (best ≡ some j))
    → (j : ℕ) × (current' : List ℕ) × (add_weights weights list i best current
        ≡ ok (some j, current'))
      × (length current' ≡ length weights)
      × (sum current' % 2 ^ 64 ≡ (sum current + sum (drop i weights)) % 2 ^ 64)
      × (j < length weights)
unfolding add_weights sum
add_weights-sum weights [] i best current here len below (inl h) = elim h [ ]
add_weights-sum weights [] i best current here len below (inr (j, e)) =
    let out : drop i weights ≡ [] = drop-length i weights (omega arith) in
    let zero_sum : sum (drop i weights) ≡ 0 = ap sum out in
    (j, current, rw e, len, ap (λ n. n % 2 ^ 64) (omega arith), below j e)
add_weights-sum weights (x ∷ list) i best current here len below begun =
    let (c, ec) = get_elem?-lt current i (omega arith) in
    let (w, ew) = get_elem?-lt weights i (omega arith) in
    let current' = set current i (add64 c w) in
    let len' = length-set current i (add64 c w) in
    let (k, eb, low) =
      better-lt i (length weights) best current' (omega arith) (len' ∙ len) below in
    let (j, out, e, l, s, b) =
      add_weights-sum weights list (i + 1) (some k) current' (omega arith) (len' ∙ len)
        (λ j h. let same : k ≡ j = cc in omega arith) (inr (k, refl)) in
    (
      j,
      out,
      rw (ec, ew, eb) e,
      l,
      omega (arith, s, sum-set current i (add64 c w) c ec, sum-drop weights i w ew),
      b,
    )

take_best-IsBalanced :
    (x : Instance) (list : List Instance) (w : WeightedRr)
    → length (x ∷ list) ≡ length w.weights
    → IsBalanced w
    → (y : Instance) × (w' : WeightedRr) × (take_best (x ∷ list) w ≡ ok (y, w'))
      × In y (x ∷ list)
      × IsBalanced w'
      × (w'.weights ≡ w.weights)
unfolding take_best
take_best-IsBalanced x list w len b =
    let (j, current, e, l, s, low) =
      add_weights-sum w.weights (x ∷ list) 0 none w.current_weight (omega arith) b.same_length
        (λ j h. cc) (inl (omega arith)) in
    let (c, ec) = get_elem?-lt current j (omega arith) in
    let (y, ey) = get_elem?-lt (x ∷ list) j (omega arith) in
    let t = w.total_weight in
    (
      y,
      record w { current_weight = set current j (sub64 c t) },
      rw (e, ec, ey),
      get_elem?-In (x ∷ list) j y ey,
      record {
        same_length = length-set current j (sub64 c t) ∙ l;
        whole = b.whole;
        zero_sum = omega (arith, sum-set current j (sub64 c t) c ec, s, b.zero_sum, b.whole);
      },
      refl,
    )

-- A selection among as many instances as there are weights returns one of them, keeps the weights,
-- and keeps the current weights summing to zero as words, if the total weight is positive.
pub select-IsBalanced :
    (x : Instance) (list : List Instance) (w : WeightedRr)
    → length (x ∷ list) ≡ length w.weights
    → IsBalanced w
    → 0 < w.total_weight
    → w.total_weight < 2 ^ 63
    → (y : Instance) × (w' : WeightedRr) × (select (x ∷ list) w ≡ ok (y, w'))
      × In y (x ∷ list)
      × IsBalanced w'
      × (w'.weights ≡ w.weights)
unfolding select
select-IsBalanced x list w len b some_weight small =
    let same : nat_beq (length (x ∷ list)) (length w.weights) ≡ true = ground arith in
    let there : nat_beq w.total_weight 0 ≡ false = ground arith in
    let positive : negative w.total_weight ≡ false = ground arith in
    rw (same, there, positive) (take_best-IsBalanced x list w len b)

sum-total : (weights : List ℕ) → total weights ≡ sum weights % 2 ^ 64
unfolding total sum
sum-total [] = omega arith
sum-total (x ∷ xs) = omega (arith, sum-total xs)

sum-zeros : (weights : List ℕ) → sum (map (λ wt. 0) weights) ≡ 0
unfolding sum
sum-zeros [] = refl
sum-zeros (x ∷ xs) = omega (arith, sum-zeros xs)

length-map : (f : ℕ → ℕ) (xs : List ℕ) → length (map f xs) ≡ length xs
length-map f [] = refl
length-map f (x ∷ xs) = ap suc (length-map f xs)

-- A new balancer is balanced.
pub new_weighted_rr-IsBalanced : (weights : List ℕ) → IsBalanced (new_weighted_rr weights)
unfolding new_weighted_rr
new_weighted_rr-IsBalanced weights = record {
  same_length = length-map (λ wt. 0) weights ∙ sym (length-map not_negative weights);
  whole = sum-total (map not_negative weights);
  zero_sum = ap (λ n. n % 2 ^ 64) (sum-zeros weights);
}
