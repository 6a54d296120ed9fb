-- ===== src/TimeWheel/Timing.antt =====
-- What the wheel promises its clients.
use yukino_go.Base.{
  ℕ, zero, suc, ◌*◌, ◌/◌, ◌^◌, ◌<◌, ◌≡◌, ◌≢◌, refl, sym, ap, ◌∙◌, arith, Bool, true, false, ◌&&◌,
  ◌||◌, Bool-cases, ltb, bytes_beq, bytes_beq_iff, nat_beq_iff, some, List, [], ◌∷◌, length,
  get_elem?, In, All, ok, ◌>>=◌, nat_beq, if◌then◌else◌, inl, inr, ◌++◌,
}
use yukino_go.TimeWheel.{Element, TimeWheel, new_time_wheel, empty_slots, add_task, remove_task}
use yukino_go.TimeWheel.Valid.{IsValid, key_of, pos_of}
use yukino_go.TimeWheel.Firing.{tick-Ticked}
use yukino_go.TimeWheel.Removal.{remove_task-Removed}
use yukino_go.TimeWheel.Placing.{add_task-Added, delay}
use yukino_go.TimeWheel.History.{
  Event, ticks, adds, removes, handle, run, tick_count, Spares, run-Ran,
}

length-empty_slots : (n : ℕ) → length (empty_slots n) ≡ n
unfolding empty_slots
length-empty_slots zero = refl
length-empty_slots (suc n) = omega (arith, length-empty_slots n)

empty_slots-In :
    (n i : ℕ) (l : List Element) (e : Element) → get_elem? (empty_slots n) i ≡ some l → In e l → ⊥
unfolding empty_slots
empty_slots-In zero i l e g h = cc
empty_slots-In (suc n) zero l e g h = let none_there : l ≡ [] = cc in rw none_there at h
empty_slots-In (suc n) (suc i) l e g h = empty_slots-In n i l e g h

-- A new wheel is valid, unless its ticks are a nanosecond apart or it takes 2^63 of them to turn.
pub new_time_wheel-IsValid :
    (n unit : ℕ)
    → unit ≢ 1
    → (if nat_beq n 0 then 10 else n) * (if nat_beq unit 0 then 1000000000 else unit) < 2 ^ 63
    → IsValid (new_time_wheel n unit)
unfolding new_time_wheel
new_time_wheel-IsValid n unit h small =
    let size = length-empty_slots (if nat_beq n 0 then 10 else n) in
    record {
      current = rw size (ground arith);
      slow = ground arith;
      small = rw size small;
      seated = λ i l e g h'. absurd (empty_slots-In (if nat_beq n 0 then 10 else n) i l e g h');
      single =
          λ i l e g q h' k a. absurd (empty_slots-In (if nat_beq n 0 then 10 else n) i l e q h');
      named = λ k f h'. cc;
      unique = λ j k f g h' h'' a. cc;
    }

handle-IsValid :
    (e : Event) (t : TimeWheel)
    → IsValid t
    → (t' : TimeWheel) × (fired : List Element) × (handle e t ≡ ok (t', fired)) × IsValid t'
unfolding handle
handle-IsValid ticks t v = let (t', fired, ran, r) = tick-Ticked t v in (t', fired, ran, r.valid)
handle-IsValid (adds now task key execute_at) t v =
    let (t', ran, r) = add_task-Added now task key execute_at t v in (t', [], rw ran, r.valid)
handle-IsValid (removes key) t v =
    let (t', ran, r) = remove_task-Removed key t v in (t', [], rw ran, r.valid)

-- From a valid wheel, whatever ticks, tasks and removals come in whatever order, the loop never
-- panics, and the wheel that it leaves is valid.
pub run-IsValid :
    (events : List Event) (t : TimeWheel)
    → IsValid t
    → (t' : TimeWheel) × (fired : List Element) × (run events t ≡ ok (t', fired)) × IsValid t'
unfolding run
run-IsValid [] t v = (t, [], refl, v)
run-IsValid (e ∷ events) t v =
    let (t', fired, did, v') = handle-IsValid e t v in
    let (t'', later, ran, v'') = run-IsValid events t' v' in
    (t'', fired ++ later, rw (did, ran), v'')

-- Whether some task of a key is started, and whether it is this one.
abbrev pub starts_key : List ℕ → List Element → Bool
starts_key key [] = false
starts_key key (e ∷ fired) = bytes_beq key (key_of e) || starts_key key fired

abbrev pub starts_task : List ℕ → ℕ → List Element → Bool
starts_task key task [] = false
starts_task key task (e ∷ fired) =
    bytes_beq key (key_of e) && nat_beq task e.value.task || starts_task key task fired

starts_task-In :
    (key : List ℕ) (task : ℕ) (fired : List Element) (s : Element)
    → In s fired
    → key_of s ≡ key
    → s.value.task ≡ task
    → (starts_key key fired ≡ true) × (starts_task key task fired ≡ true)
starts_task-In key task [] s h k e = absurd h
starts_task-In key task (x ∷ fired) s (inl same) k e = ground (
  arith,
  bytes_beq_iff key (key_of x),
  nat_beq_iff task x.value.task,
  ap key_of same,
  ap (λ (y : Element). y.value.task) same,
)
starts_task-In key task (x ∷ fired) s (inr below) k e =
    ground (arith, starts_task-In key task fired s below k e)

starts_key_none :
    (key : List ℕ) (task : ℕ) (fired : List Element)
    → ((s : Element) → In s fired → key_of s ≢ key)
    → (starts_key key fired ≡ false) × (starts_task key task fired ≡ false)
starts_key_none key task [] h = (refl, refl)
starts_key_none key task (x ∷ fired) h = ground (
  arith,
  bytes_beq_iff key (key_of x),
  h x (inl refl),
  starts_key_none key task fired (λ s m. h s (inr m)),
)

-- A task that is added to a valid wheel is started by the tick whose number is one more than the
-- intervals in its delay, and no task of its key is started before, whatever happens to other keys.
pub add_task-starts :
    (now task : ℕ) (key : List ℕ) (execute_at : ℕ) (events : List Event) (t : TimeWheel)
    → IsValid t
    → All (Spares key) events
    → (t' : TimeWheel) × (fired : List Element) × ((add_task now task key execute_at t
          >>= run events)
        ≡ ok (t', fired))
      × (starts_key key fired ≡ ltb (delay now execute_at / t.interval) (tick_count events))
      × (starts_task key task fired ≡ ltb (delay now execute_at / t.interval) (tick_count events))
add_task-starts now task key execute_at events t v spared =
    let (t', added, a) = add_task-Added now task key execute_at t v in
    let (t'', fired, ran, r) = run-Ran key events t' spared a.valid in
    let (e, seat, k, it, far) = a.arrives in
    elim (Bool-cases (ltb (delay now execute_at / t.interval) (tick_count events))) [
      | inl soon ↦
          let (s, m, q, same) = r.starts e seat k (ground arith) in
          let (some_key, some_task) = starts_task-In key task fired s m q (same ∙ it) in
          (t'', fired, rw (added, ran), some_key ∙ sym soon, some_task ∙ sym soon)
      | inr early ↦
          let (no_key, no_task) =
            starts_key_none key task fired (r.waits e seat k (ground arith)) in
          (t'', fired, rw (added, ran), no_key ∙ sym early, no_task ∙ sym early)
    ]

-- After removeTask on a valid wheel, no task of the key is started until one is added.
pub remove_task-stops :
    (key : List ℕ) (events : List Event) (t : TimeWheel)
    → IsValid t
    → All (Spares key) events
    → (t' : TimeWheel) × (fired : List Element) × ((remove_task key t >>= run events)
        ≡ ok (t', fired))
      × (starts_key key fired ≡ false)
remove_task-stops key events t v spared =
    let (t', removed, a) = remove_task-Removed key t v in
    let (t'', fired, ran, r) = run-Ran key events t' spared a.valid in
    let gone = r.absent (λ s seat. a.absent.1 (pos_of s) seat.slot s seat.found seat.inside) in
    (t'', fired, rw (removed, ran), (starts_key_none key 0 fired gone.1).0)
