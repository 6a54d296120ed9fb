-- ===== src/Rpc/Balance.antt =====
-- libs/yukino_rpc/internal/load_balance/round_robin.go and weighted_rr.go. An `int` is its bit
-- pattern.
pub mod Weights
mod Tests
use yukino_go.Base.{
  ℕ, ◌+◌, ◌%◌, ◌^◌, Bool, true, false, not, Option, none, some, List, [], ◌∷◌, length, set, map,
  nat_beq, ltb, leb, add64, sub64, if◌then◌else◌, Res, ok, panic, ◌>>=◌, index,
}

-- registry.Instance
pub record Instance : Type 0 where
  pub addr : List ℕ

abbrev pub no_instance : Instance
no_instance = record { addr = [] }

abbrev pub B : Type 0 → Type 0
B A = Res (Unit {0}) A

pub record RoundRobin : Type 0 where
  pub idx : ℕ

abbrev pub new_rr : RoundRobin
new_rr = record { idx = 0 }

unfoldable pub next : List Instance → RoundRobin → B (Instance × RoundRobin)
next [] r = ok (no_instance, r)
next (x ∷ list) r = do
  y ← index (x ∷ list) (sub64 (add64 r.idx 1) 1 % length (x ∷ list))
  ok (y, record { idx = add64 r.idx 1 })

pub record WeightedRr : Type 0 where
  pub weights : List ℕ
  pub current_weight : List ℕ
  pub total_weight : ℕ

-- `wt < 0`, and `a > b`.
abbrev pub negative : ℕ → Bool
negative wt = leb (2 ^ 63) wt

abbrev pub gt_s64 : ℕ → ℕ → Bool
gt_s64 a b = ltb ((b + 2 ^ 63) % 2 ^ 64) ((a + 2 ^ 63) % 2 ^ 64)

abbrev pub not_negative : ℕ → ℕ
not_negative wt = if negative wt then 0 else wt

unfoldable pub total : List ℕ → ℕ
total [] = 0
total (wt ∷ weights) = add64 wt (total weights)

unfoldable pub new_weighted_rr : List ℕ → WeightedRr
new_weighted_rr weights = record {
  weights = map not_negative weights;
  current_weight = map (λ wt. 0) weights;
  total_weight = total (map not_negative weights);
}

-- The choice among `i` and the best index before it.
unfoldable pub better : ℕ → Option ℕ → List ℕ → B ℕ
better i none current = ok i
better i (some j) current = do
  a ← index current i
  b ← index current j
  ok (if gt_s64 a b then i else j)

-- The loop of `Select` from index `i` on.
unfoldable pub add_weights : List ℕ → List Instance → ℕ → Option ℕ → List ℕ → B (Option ℕ × List ℕ)
add_weights weights [] i best current = ok (best, current)
add_weights weights (x ∷ list) i best current = do
  c ← index current i
  w ← index weights i
  best' ← better i best (set current i (add64 c w))
  add_weights weights list (i + 1) (some best') (set current i (add64 c w))

-- The part of `Select` after its guards.
unfoldable pub take_best : List Instance → WeightedRr → B (Instance × WeightedRr)
take_best list w = do
  (best, current) ← add_weights w.weights list 0 none w.current_weight
  max_idx ← elim best [ none ↦ panic | some j ↦ ok j ]
  c ← index current max_idx
  x ← index list max_idx
  ok (x, record w { current_weight = set current max_idx (sub64 c w.total_weight) })

unfoldable pub select : List Instance → WeightedRr → B (Instance × WeightedRr)
select [] w = ok (no_instance, w)
select (x ∷ list) w =
    if not (nat_beq (length (x ∷ list)) (length w.weights))
    then ok (no_instance, w)
    else if nat_beq w.total_weight 0
    then ok (no_instance, w)
    else if negative w.total_weight
    then ok (no_instance, w)
    else take_best (x ∷ list) w
