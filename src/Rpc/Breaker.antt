-- ===== src/Rpc/Breaker.antt =====
-- libs/yukino_rpc/internal/breaker/breaker.go: the circuit breaker of a client. The clock's reading is
-- an argument, as nanoseconds.
pub mod Valid
pub mod Window
use yukino_go.Base.{ℕ, ◌+◌, Bool, true, false, ltb, if◌then◌else◌}

-- What the breaker uses of floating point: the quotient of two integers, and `>=`.
pub record Float (F : Type 0) : Type 0 where
  pub ratio : ℕ → ℕ → F
  pub at_least : F → F → Bool

pub data State : Type 0 where
  closed : State
  opened : State
  half_open : State

pub record CircuitBreaker (F : Type 0) : Type 0 where
  pub state : State
  pub failure_count : ℕ
  pub success_count : ℕ
  pub window_size : ℕ
  pub failure_threshold : F
  pub open_timeout : ℕ
  pub last_state_change : ℕ
  pub half_open_probe : Bool

abbrev pub new_circuit_breaker : {F : Type 0} → ℕ → ℕ → F → ℕ → CircuitBreaker F
new_circuit_breaker now size threshold timeout = record {
  state = closed;
  failure_count = 0;
  success_count = 0;
  window_size = size;
  failure_threshold = threshold;
  open_timeout = timeout;
  last_state_change = now;
  half_open_probe = false;
}

module _ {F : Type 0} ⦃d : Float F⦄ where
  unfoldable pub reset_counts : CircuitBreaker F → CircuitBreaker F
  reset_counts cb = record cb { failure_count = 0; success_count = 0 }

  unfoldable pub to_open : ℕ → CircuitBreaker F → CircuitBreaker F
  to_open now cb = record (reset_counts (record cb { state = opened; last_state_change = now })) {
    half_open_probe = false;
  }

  unfoldable pub to_closed : ℕ → CircuitBreaker F → CircuitBreaker F
  to_closed now cb = record (reset_counts (record cb { state = closed; last_state_change = now })) {
    half_open_probe = false;
  }

  unfoldable pub allow : ℕ → CircuitBreaker F → Bool × CircuitBreaker F
  allow now cb = elim cb.state [
    | closed ↦ (true, cb)
    | opened ↦
        if ltb (cb.last_state_change + cb.open_timeout) now
        then (true, record cb { state = half_open; half_open_probe = true })
        else (false, cb)
    | half_open ↦
        if cb.half_open_probe then (false, cb) else (true, record cb { half_open_probe = true })
  ]

  unfoldable pub reset_closed_window_if_ready : ℕ → CircuitBreaker F → CircuitBreaker F
  reset_closed_window_if_ready now cb =
      let total = cb.failure_count + cb.success_count in
      if ltb total cb.window_size
      then cb
      else if d.at_least (d.ratio cb.failure_count total) cb.failure_threshold
      then to_open now cb
      else reset_counts cb

  unfoldable pub record_success : ℕ → CircuitBreaker F → CircuitBreaker F
  record_success now cb = elim cb.state [
    | closed ↦ reset_closed_window_if_ready now (record cb { success_count = cb.success_count + 1 })
    | half_open ↦ to_closed now cb
    | opened ↦ cb
  ]

  unfoldable pub record_failure : ℕ → CircuitBreaker F → CircuitBreaker F
  record_failure now cb = elim cb.state [
    | closed ↦
        let counted = record cb { failure_count = cb.failure_count + 1 } in
        let total = counted.failure_count + counted.success_count in
        if ltb total counted.window_size
        then counted
        else if d.at_least (d.ratio counted.failure_count total) counted.failure_threshold
        then to_open now counted
        else reset_counts counted
    | half_open ↦ to_open now cb
    | opened ↦ cb
  ]
