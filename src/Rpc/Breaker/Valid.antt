-- ===== src/Rpc/Breaker/Valid.antt =====
-- The invariant of the circuit breaker, and how many requests it lets through while it is not closed.
use yukino_go.Base.{
  ℕ, suc, ◌+◌, ◌≤◌, ◌<◌, max, ◌≡◌, ◌≢◌, refl, arith, true, false, List, [], ◌∷◌, if◌then◌else◌,
}
use yukino_go.Rpc.Breaker.{
  Float, closed, opened, half_open, CircuitBreaker, allow, record_success, record_failure, to_open,
  to_closed, reset_counts, reset_closed_window_if_ready,
}

-- A closed breaker has not filled its window; another has empty counts; the probe is out exactly
-- while the breaker is half open.
abbrev pub IsValid : {F : Type 0} → CircuitBreaker F → Type 0
IsValid cb = elim cb.state [
  | closed ↦
      (cb.failure_count + cb.success_count < max 1 cb.window_size) × (cb.half_open_probe ≡ false)
  | opened ↦ (cb.failure_count + cb.success_count ≡ 0) × (cb.half_open_probe ≡ false)
  | half_open ↦ (cb.failure_count + cb.success_count ≡ 0) × (cb.half_open_probe ≡ true)
]

-- What a client asks of the breaker, with the clock's reading.
pub data Event : Type 0 where
  asks : ℕ → Event
  succeeds : ℕ → Event
  fails : ℕ → Event

module _ {F : Type 0} ⦃d : Float F⦄ where
  abbrev pub handle : CircuitBreaker F → Event → CircuitBreaker F
  handle cb (asks now) = (allow now cb).1
  handle cb (succeeds now) = record_success now cb
  handle cb (fails now) = record_failure now cb

  -- How many of a run of requests are let through, no outcome being recorded in between.
  abbrev pub let_through : List ℕ → CircuitBreaker F → ℕ
  let_through [] cb = 0
  let_through (now ∷ later) cb =
      let (allowed, after) = allow now cb in
      let others = let_through later after in if allowed then suc others else others

  -- Every operation keeps a breaker valid: counts below the window while it is closed, empty counts
  -- otherwise, and a probe exactly while it is half open.
  pub handle-IsValid : (cb : CircuitBreaker F) (e : Event) → IsValid cb → IsValid (handle cb e)
  unfolding allow record_success record_failure to_open to_closed reset_counts
      reset_closed_window_if_ready
  handle-IsValid cb (asks now) h = ground arith
  handle-IsValid cb (succeeds now) h = ground arith
  handle-IsValid cb (fails now) h = ground arith

  -- A half-open breaker with its probe out lets nothing through until an outcome is recorded.
  pub let_through-half_open :
      (times : List ℕ) (cb : CircuitBreaker F)
      → IsValid cb
      → cb.state ≡ half_open
      → let_through times cb ≡ 0
  unfolding allow
  let_through-half_open [] cb h e = refl
  let_through-half_open (now ∷ later) cb h e =
      ground (arith, let_through-half_open later (allow now cb).1)

  -- A valid breaker that is not closed lets at most one request through, however many ask and
  -- whenever they do, until an outcome is recorded.
  pub let_through-probe :
      (times : List ℕ) (cb : CircuitBreaker F)
      → IsValid cb
      → cb.state ≢ closed
      → let_through times cb ≤ 1
  unfolding allow
  let_through-probe [] cb h e = omega arith
  let_through-probe (now ∷ later) cb h e = ground (
    arith,
    let_through-probe later (allow now cb).1,
    let_through-half_open later (allow now cb).1,
  )
