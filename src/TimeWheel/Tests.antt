-- ===== src/TimeWheel/Tests.antt =====
-- Runs of a wheel of three slots, and the theorems at concrete inputs.
use yukino_go.Base.{ℕ, ◌/◌, ◌≡◌, refl, arith, List, [], ◌∷◌, All, false, ltb, ok, ◌>>=◌, map}
use yukino_go.TimeWheel.{
  W, Element, TimeWheel, new_time_wheel, empty_slots, tick, add_task, remove_task, execute,
  circular_incr, push_back, get_pos_and_circle, cycle_of, remove_element,
}
use yukino_go.TimeWheel.Valid.{IsValid}
use yukino_go.TimeWheel.Placing.{delay}
use yukino_go.TimeWheel.History.{Event, ticks, adds, removes, handle, run, tick_count, Spares}
use yukino_go.TimeWheel.Timing.{
  starts_key, starts_task, new_time_wheel-IsValid, run-IsValid, add_task-starts, remove_task-stops,
}

abbrev wheel : TimeWheel
wheel = new_time_wheel 3 10

wheel-IsValid : IsValid wheel
wheel-IsValid = new_time_wheel-IsValid 3 10 (λ e. omega arith) (omega arith)

-- Task 7 is due after 45, in the fifth tick; task 8 replaces itself; task 9 is removed.
abbrev day : List Event
day =
    adds 100 7 (1 ∷ []) 145
    ∷ adds 100 8 (2 ∷ []) 190
    ∷ adds 100 9 (3 ∷ []) 100
    ∷ ticks
    ∷ adds 110 9 (3 ∷ []) 130
    ∷ removes (3 ∷ [])
    ∷ adds 112 8 (2 ∷ []) 115
    ∷ ticks
    ∷ ticks
    ∷ ticks
    ∷ ticks
    ∷ []

abbrev tasks_of : W (TimeWheel × List Element) → W (List ℕ)
tasks_of r = r >>= λ out. ok (map (λ (e : Element). e.value.task) out.1)

day-run : tasks_of (run day wheel) ≡ ok (9 ∷ 8 ∷ 7 ∷ [])
unfolding run handle tick add_task remove_task execute circular_incr push_back get_pos_and_circle
    cycle_of remove_element new_time_wheel empty_slots
day-run = refl

run-IsValid_example :
    (t' : TimeWheel) × (fired : List Element) × (run day wheel ≡ ok (t', fired)) × IsValid t'
run-IsValid_example = run-IsValid day wheel wheel-IsValid

-- The events of another key, with five ticks.
abbrev others : List Event
others = ticks ∷ adds 111 8 (2 ∷ []) 111 ∷ ticks ∷ ticks ∷ removes (2 ∷ []) ∷ ticks ∷ ticks ∷ []

others_spare : All (Spares (1 ∷ [])) others
others_spare = (tt, (λ e. ground arith, (tt, (tt, (λ e. ground arith, (tt, (tt, tt)))))))

add_task-starts_example :
    (t' : TimeWheel) × (fired : List Element) × ((add_task 100 7 (1 ∷ []) 145 wheel >>= run others)
      ≡ ok (t', fired))
    × (starts_key (1 ∷ []) fired ≡ ltb (delay 100 145 / wheel.interval) (tick_count others))
    × (starts_task (1 ∷ []) 7 fired ≡ ltb (delay 100 145 / wheel.interval) (tick_count others))
add_task-starts_example = add_task-starts 100 7 (1 ∷ []) 145 others wheel wheel-IsValid others_spare

remove_task-stops_example :
    (t' : TimeWheel) × (fired : List Element) × ((remove_task (1 ∷ []) wheel >>= run others)
      ≡ ok (t', fired))
    × (starts_key (1 ∷ []) fired ≡ false)
remove_task-stops_example = remove_task-stops (1 ∷ []) others wheel wheel-IsValid others_spare
