-- ===== src/TimeWheel/Turns.antt =====
-- The arithmetic of a turning wheel.
use native.Mathlib.Nat.{
  mod-add-mod, add-mod_right, mod-eq_of_lt, mod-eq-sub-mod, div-div-eq-div-mul, mul_comm,
  mod-add-div, suc-mul, zero-mul,
}
use yukino_go.Base.{
  ℕ, zero, suc, refl, ◌⊎◌, ◌+◌, ◌-◌, ◌*◌, ◌/◌, ◌%◌, ◌≤◌, ◌<◌, ◌≡◌, ◌≢◌, ap, sym, ◌∙◌, ltb,
  Bool-cases, ltb→lt, inl, inr, if◌then◌else◌, arith,
}

-- How many ticks pass before the tick that starts a task: the slots up to its own, and its turns.
abbrev pub ticks_left : ℕ → ℕ → ℕ → ℕ → ℕ
ticks_left n cur pos cycle = (pos + n - cur) % n + cycle * n

distance : (n cur k : ℕ) → cur < n → ((cur + k) % n + n - cur) % n ≡ k % n
distance n cur k h =
    let split : (cur + k) % n + n - cur ≡ (cur + k) % n + (n - cur) = omega arith in
    let join : cur + k + (n - cur) ≡ k + n = omega arith in
    ap (λ a. a % n) split
    ∙ mod-add-mod (cur + k) n (n - cur)
    ∙ ap (λ a. a % n) join
    ∙ add-mod_right k n

-- The place and the turns that a delay of `d` gives are `d / unit` ticks away.
pub ticks_left-place :
    (n cur d unit : ℕ)
    → cur < n
    → ticks_left n cur ((cur + d / unit) % n) (d / (n * unit)) ≡ d / unit
ticks_left-place n cur d unit h =
    let e : d / (n * unit) ≡ d / unit / n =
      ap (λ m. d / m) (mul_comm n unit) ∙ sym (div-div-eq-div-mul d unit n) in
    rw (e, distance n cur (d / unit) h)
      (grind (arith, mod-add-div (d / unit) n, mul_comm (d / unit / n) n))

-- A remainder of a number below `2 * n`.
mod_near : (a n : ℕ) → a < n + n → a % n ≡ (if ltb a n then a else a - n)
mod_near a n h = elim (Bool-cases (ltb a n)) [
  | inl low ↦ rw low (mod-eq_of_lt (ltb→lt a n low))
  | inr high ↦
      let reach : n ≤ a = ground arith in
      let rest : a - n < n = omega arith in rw (high, mod-eq-sub-mod reach, mod-eq_of_lt rest)
]

zero_or_suc : (n : ℕ) → (n ≡ 0) ⊎ ((m : ℕ) × (n ≡ suc m))
zero_or_suc zero = inl refl
zero_or_suc (suc m) = inr (m, refl)

module _ (n cur pos cycle : ℕ) (h : cur < n) (k : pos < n) where
  -- A tick brings another slot's task one tick nearer.
  pub ticks_left-other :
      pos ≢ cur → ticks_left n cur pos cycle ≡ suc (ticks_left n ((cur + 1) % n) pos cycle)
  ticks_left-other ne =
      let next = mod_near (cur + 1) n (omega arith) in
      let far = mod_near (pos + n - cur) n (omega arith) in
      let near = mod_near (pos + n - (cur + 1)) n (omega arith) in
      ground (arith, next, far, near, mod_near (pos + n) n)

  -- Its own slot's task too, if it has a turn left.
  pub ticks_left_self :
      pos ≡ cur
      → 0 < cycle
      → ticks_left n cur pos cycle ≡ suc (ticks_left n ((cur + 1) % n) pos (cycle - 1))
  ticks_left_self e c =
      let turns : cycle ≡ suc (cycle - 1) = omega arith in
      let whole : cycle * n ≡ (cycle - 1) * n + n = ap (λ c. c * n) turns ∙ suc-mul (cycle - 1) n in
      let next = mod_near (cur + 1) n (omega arith) in
      let here = mod_near (pos + n - cur) n (omega arith) in
      let past = mod_near (pos + n - (cur + 1)) n (omega arith) in
      ground (arith, whole, next, here, past, mod_near (pos + n) n)

  pub ticks_left-zero : ticks_left n cur pos cycle ≡ 0 → (pos ≡ cur) × (cycle ≡ 0)
  ticks_left-zero e =
      let near = mod_near (pos + n - cur) n (omega arith) in
      elim (zero_or_suc cycle) [
        | inl none_left ↦ (ground (arith, near), none_left)
        | inr (c, some_left) ↦ absurd (omega (arith, ap (λ c. c * n) some_left ∙ suc-mul c n))
      ]

pub ticks_left-now : (n cur : ℕ) → cur < n → ticks_left n cur cur 0 ≡ 0
ticks_left-now n cur h =
    let near = mod_near (cur + n - cur) n (omega arith) in ground (arith, near, zero-mul n)
