-- ===== src/Rpc/Breaker/Window.antt =====
-- How the outcomes of a window decide whether a closed breaker opens.
use yukino_go.Base.{ℕ, suc, ◌≡◌, Bool, true, false, List, [], ◌∷◌, if◌then◌else◌}
use yukino_go.Rpc.Breaker.{Float, closed, opened, CircuitBreaker, record_success, record_failure}

-- Outcomes in their order: the clock's reading, and whether the request failed.
module _ {F : Type 0} ⦃d : Float F⦄ where
  abbrev pub outcome : Bool → ℕ → CircuitBreaker F → CircuitBreaker F
  outcome true now cb = record_failure now cb
  outcome false now cb = record_success now cb

  abbrev pub outcomes : List (ℕ × Bool) → CircuitBreaker F → CircuitBreaker F
  outcomes [] cb = cb
  outcomes ((now, failed) ∷ later) cb = outcomes later (outcome failed now cb)

abbrev pub failures : List (ℕ × Bool) → ℕ
failures [] = 0
failures ((now, failed) ∷ later) = let below = failures later in if failed then suc below else below

module _ {F : Type 0} ⦃d : Float F⦄ where
  -- Of `n` failures in a full window.
  abbrev pub Decided : CircuitBreaker F → ℕ → CircuitBreaker F → Type 0
  Decided cb n after =
      (after.state
        ≡ (if d.at_least (d.ratio n cb.window_size) cb.failure_threshold then opened else closed))
      × (after.failure_count ≡ 0)
      × (after.success_count ≡ 0)
