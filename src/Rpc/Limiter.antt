-- ===== src/Rpc/Limiter.antt =====
-- libs/yukino_rpc/internal/limiter/token_bucket.go: the rate limiter. Its ticker refills it once a
-- second until it is stopped.
use yukino_go.Base.{
  ℕ, suc, ◌+◌, ◌-◌, ◌*◌, ◌≤◌, ◌≡◌, arith, Bool, true, false, List, [], ◌∷◌, ltb, min, if◌then◌else◌,
}

pub record TokenBucket : Type 0 where
  pub tokens : ℕ
  pub rate : ℕ
  pub stopped : Bool
  pub returned : Bool

-- `rate` is the argument with a negative number replaced by 0.
abbrev pub new_token_bucket : ℕ → TokenBucket
new_token_bucket rate = record { tokens = rate; rate = rate; stopped = false; returned = false }

-- A tick of the goroutine, unless it has returned.
unfoldable pub refill : TokenBucket → TokenBucket
refill tb = if tb.returned then tb else record tb { tokens = tb.rate }

unfoldable pub allow : TokenBucket → Bool × TokenBucket
allow tb = if ltb 0 tb.tokens then (true, record tb { tokens = tb.tokens - 1 }) else (false, tb)

unfoldable pub stop : TokenBucket → TokenBucket
stop tb = record tb { stopped = true }

-- The goroutine returns, once `stop` is closed; when a tick is there as well, it may take either.
unfoldable pub return_once_stopped : TokenBucket → TokenBucket
return_once_stopped tb = if tb.stopped then record tb { returned = true } else tb

pub data Event : Type 0 where
  ticks : Event
  asks : Event
  stops : Event
  returns : Event

-- A run of the bucket: how many requests it allows, and how often its ticker fires.
abbrev pub allowed : List Event → TokenBucket → ℕ
allowed [] tb = 0
allowed (ticks ∷ later) tb = allowed later (refill tb)
allowed (asks ∷ later) tb =
    let (granted, after) = allow tb in
    let others = allowed later after in if granted then suc others else others
allowed (stops ∷ later) tb = allowed later (stop tb)
allowed (returns ∷ later) tb = allowed later (return_once_stopped tb)

abbrev pub tick_count : List Event → ℕ
tick_count [] = 0
tick_count (ticks ∷ later) = suc (tick_count later)
tick_count (asks ∷ later) = tick_count later
tick_count (stops ∷ later) = tick_count later
tick_count (returns ∷ later) = tick_count later

abbrev pub ask_count : List Event → ℕ
ask_count [] = 0
ask_count (ticks ∷ later) = ask_count later
ask_count (asks ∷ later) = suc (ask_count later)
ask_count (stops ∷ later) = ask_count later
ask_count (returns ∷ later) = ask_count later

-- Between two ticks, as many of the requests are allowed as there are tokens.
pub allowed-no_tick :
    (events : List Event) (tb : TokenBucket)
    → tick_count events ≡ 0
    → allowed events tb ≡ min (ask_count events) tb.tokens
unfolding allow stop return_once_stopped
allowed-no_tick [] tb h = omega arith
allowed-no_tick (ticks ∷ later) tb h = absurd (omega arith)
allowed-no_tick (asks ∷ later) tb h = ground (arith, allowed-no_tick later (allow tb).1)
allowed-no_tick (stops ∷ later) tb h = allowed-no_tick later (stop tb) h
allowed-no_tick (returns ∷ later) tb h =
    ground (arith, allowed-no_tick later (return_once_stopped tb) h)

-- In any run, at most the tokens at its start and the rate for each tick are given out.
pub allowed-le :
    (events : List Event) (tb : TokenBucket)
    → allowed events tb ≤ tb.tokens + tb.rate * tick_count events
unfolding allow stop return_once_stopped refill
allowed-le [] tb = omega arith
allowed-le (ticks ∷ later) tb = ground (arith, allowed-le later (refill tb))
allowed-le (asks ∷ later) tb = ground (arith, allowed-le later (allow tb).1)
allowed-le (stops ∷ later) tb = allowed-le later (stop tb)
allowed-le (returns ∷ later) tb = ground (arith, allowed-le later (return_once_stopped tb))
