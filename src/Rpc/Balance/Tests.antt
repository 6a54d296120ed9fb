-- ===== src/Rpc/Balance/Tests.antt =====
-- Runs of the balancers, and the theorem at a concrete input.
use yukino_go.Base.{ℕ, zero, suc, ◌-◌, ◌^◌, ◌≡◌, refl, arith, List, [], ◌∷◌, In, ok, ◌>>=◌}
use yukino_go.Rpc.Balance.{
  B, Instance, WeightedRr, new_rr, next, new_weighted_rr, total, better, add_weights, take_best,
  select,
}
use yukino_go.Rpc.Balance.Weights.{IsBalanced, select-IsBalanced, new_weighted_rr-IsBalanced}

abbrev first : Instance
first = record { addr = 97 ∷ [] }

abbrev second : Instance
second = record { addr = 98 ∷ [] }

abbrev both : List Instance
both = first ∷ second ∷ []

abbrev selected : ℕ → WeightedRr → B (List Instance)
selected zero w = ok []
selected (suc n) w = do (x, w') ← select both w; xs ← selected n w'; ok (x ∷ xs)

-- Weights 3 and 1, and a negative weight, which counts for 0.
select-three_one :
    selected 4 (new_weighted_rr (3 ∷ 1 ∷ [])) ≡ ok (first ∷ first ∷ second ∷ first ∷ [])
unfolding select take_best add_weights better total new_weighted_rr
select-three_one = refl

select-negative : selected 2 (new_weighted_rr ((2 ^ 64 - 5) ∷ 1 ∷ [])) ≡ ok (second ∷ second ∷ [])
unfolding select take_best add_weights better total new_weighted_rr
select-negative = refl

-- The index of the round robin wraps.
next-wrapped : next both (record { idx = 2 ^ 64 - 1 }) ≡ ok (second, new_rr)
unfolding next
next-wrapped = refl

select-IsBalanced_example :
    (y : Instance) × (w' : WeightedRr) × (select both (new_weighted_rr (3 ∷ 1 ∷ [])) ≡ ok (y, w'))
    × In y both
    × IsBalanced w'
    × (w'.weights ≡ (new_weighted_rr (3 ∷ 1 ∷ [])).weights)
unfolding new_weighted_rr total
select-IsBalanced_example =
    select-IsBalanced first (second ∷ []) (new_weighted_rr (3 ∷ 1 ∷ [])) refl
      (new_weighted_rr-IsBalanced (3 ∷ 1 ∷ [])) (omega arith) (omega arith)
