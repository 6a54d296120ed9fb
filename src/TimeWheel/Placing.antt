-- ===== src/TimeWheel/Placing.antt =====
-- `add_task` seats a task at the slot, and with the turns, that its delay asks for.
use native.Mathlib.Nat.{div-mul-le_self, mod-lt}
use yukino_go.Base.{
  ℕ, ◌+◌, ◌-◌, ◌*◌, ◌/◌, ◌%◌, ◌^◌, ◌≤◌, ◌<◌, ◌≡◌, ◌≢◌, refl, sym, ap, ◌∙◌, arith, false, some, none,
  List, [], ◌∷◌, ◌++◌, length, get_elem?, min, leb, In-append_left, In-append_right, lookup,
  bytes_eq, nat_beq, nat_beq_iff, ok, length-set, get_elem?-set_self, get_elem?-set_ne,
  get_elem?-lt, Option-cases, Bool-cases, ◌⊎◌, inl, inr, lt-get_elem?,
}
use yukino_go.TimeWheel.{
  W, Element, TaskElement, TimeWheel, push_back, add_task, get_pos_and_circle, cycle_of,
  remove_task,
}
use yukino_go.TimeWheel.Valid.{IsValid, Seat, key_of, pos_of}
use yukino_go.TimeWheel.Turns.{ticks_left-place}
use yukino_go.TimeWheel.Firing.{left}
use yukino_go.TimeWheel.Removal.{remove_task-Removed}
use yukino_go.TimeWheel.Addition.{pushed, newcomer, old_or_new, pushed-IsValid}

-- The delay of a task that is added at a time.
abbrev pub delay : ℕ → ℕ → ℕ
delay now execute_at = min (execute_at - now) (2 ^ 63 - 1)

-- What adding a task does to a valid wheel.
pub record Added (now task : ℕ) (key : List ℕ) (execute_at : ℕ) (t t' : TimeWheel) : Type 0 where
  pub valid : IsValid t'
  pub same_interval : t'.interval ≡ t.interval
  pub came : (e : Element) → Seat t' e → (key_of e ≡ key) ⊎ Seat t e
  -- The elements of the other keys stay as near as they are.
  pub kept : (e : Element) → Seat t e → key_of e ≢ key → Seat t' e × (left t' e ≡ left t e)
  -- The task is in the wheel, as far away as its delay has intervals.
  pub arrives :
      (e : Element) × Seat t' e
      × (key_of e ≡ key)
      × (e.value.task ≡ task)
      × (left t' e ≡ delay now execute_at / t.interval)

twice_le : (a b : ℕ) → 1 < b → a + a ≤ a * b
twice_le a b h = grind arith

-- No product and no sum of a valid wheel leaves 63 bits.
no_overflow :
    (n unit cur d : ℕ)
    → 1 < unit
    → n * unit < 2 ^ 63
    → cur < n
    → d < 2 ^ 63
    → cur + d / unit < 2 ^ 63
no_overflow n unit cur d h small inside short =
    omega (arith, twice_le n unit h, twice_le (d / unit) unit h, div-mul-le_self d unit)

get_pos_and_circle-place :
    (now : ℕ) (t : TimeWheel) (execute_at : ℕ)
    → IsValid t
    → get_pos_and_circle now t execute_at
      ≡ ok (
        (t.cur_slot + delay now execute_at / t.interval) % length t.slots,
        delay now execute_at / (length t.slots * t.interval),
      )
unfolding get_pos_and_circle cycle_of
get_pos_and_circle-place now t execute_at v =
    let turn = length t.slots * t.interval in
    let d = delay now execute_at in
    let exact : turn % 2 ^ 64 ≡ turn = omega (arith, v.small) in
    let some_slots : nat_beq turn 0 ≡ false =
      ground (arith, twice_le (length t.slots) t.interval v.slow, v.current) in
    let in_range : leb (2 ^ 63) turn ≡ false = ground (arith, v.small) in
    let near : leb (2 ^ 63) (t.cur_slot + d / t.interval) ≡ false = ground (
      arith,
      no_overflow (length t.slots) t.interval t.cur_slot d v.slow v.small v.current (omega arith),
    ) in
    rw (exact, some_slots, in_range, near)

place_Seat :
    (task : TaskElement) (l : List Element) (t : TimeWheel)
    → get_elem? t.slots task.pos ≡ some l
    → Seat (pushed task l t) (newcomer task t)
place_Seat task l t slot = record {
  slot = l ++ newcomer task t ∷ [];
  found =
      get_elem?-set_self t.slots task.pos (l ++ newcomer task t ∷ [])
        (lt-get_elem? t.slots task.pos l slot);
  inside = In-append_right (newcomer task t) l (newcomer task t ∷ []) (inl refl);
}

kept_Seat :
    (task : TaskElement) (l : List Element) (t : TimeWheel) (e : Element)
    → get_elem? t.slots task.pos ≡ some l
    → Seat t e
    → Seat (pushed task l t) e
kept_Seat task l t e slot s = elim (Bool-cases (nat_beq task.pos (pos_of e))) [
  | inl same ↦
      let here = (nat_beq_iff task.pos (pos_of e)).0 same in
      let one : s.slot ≡ l = cc (ap (get_elem? t.slots) here, s.found, slot) in
      record {
        slot = l ++ newcomer task t ∷ [];
        found =
            ap (get_elem? (pushed task l t).slots) (sym here)
            ∙ get_elem?-set_self t.slots task.pos (l ++ newcomer task t ∷ [])
                (lt-get_elem? t.slots task.pos l slot);
        inside = In-append_left e l (newcomer task t ∷ []) (rw one at s.inside);
      }
  | inr other ↦ record {
    slot = s.slot;
    found =
        get_elem?-set_ne t.slots task.pos (pos_of e) (l ++ newcomer task t ∷ [])
          (λ h. cc (other, (nat_beq_iff task.pos (pos_of e)).1 h))
        ∙ s.found;
    inside = s.inside;
  }
]

-- The older task of a key is removed, if there is one.
clear_first :
    (key : List ℕ) (t : TimeWheel)
    → (elim (lookup key t.key_to_etask) as (λ _. W TimeWheel) [
      | none ↦ ok t
      | some _ ↦ remove_task key t
    ])
      ≡ remove_task key t
unfolding remove_task
clear_first key t = elim (Option-cases (lookup key t.key_to_etask)) [
  | inl gone ↦ rw (gone, remove_task)
  | inr (f, has) ↦ rw has
]

-- On a valid wheel `add_task` returns, and replaces the task of the key.
pub add_task-Added :
    (now task : ℕ) (key : List ℕ) (execute_at : ℕ) (t : TimeWheel)
    → IsValid t
    → (t' : TimeWheel) × (add_task now task key execute_at t ≡ ok t')
      × Added now task key execute_at t t'
unfolding add_task push_back
add_task-Added now task key execute_at t v =
    let n = length t.slots in
    let d = delay now execute_at in
    let (c, cleared, r) = remove_task-Removed key t v in
    let inside : (t.cur_slot + d / t.interval) % n < length c.slots = omega (
      arith,
      r.same_turn.1,
      mod-lt (t.cur_slot + d / t.interval) {m = n} (omega (arith, v.current)),
    ) in
    let (l, slot) = get_elem?-lt c.slots ((t.cur_slot + d / t.interval) % n) inside in
    let new : TaskElement = record {
      task = task;
      pos = (t.cur_slot + d / t.interval) % n;
      cycle = d / (n * t.interval);
      key = key;
      execute_at = execute_at;
    } in
    let size = length-set c.slots new.pos (l ++ newcomer new c ∷ []) in
    (
      pushed new l c,
      rw (get_pos_and_circle-place now t execute_at v, clear_first key t ∙ cleared, slot),
      record {
        valid = pushed-IsValid new l c r.valid r.absent slot;
        same_interval = r.same_interval;
        came = λ e s.
            elim (old_or_new new l c r.valid r.absent slot (pos_of e) s.slot e s.found s.inside) [
              | inl (here, same) ↦ inl (ap key_of same)
              | inr (m, was, mem) ↦ inr (r.came e (record { slot = m; found = was; inside = mem }))
            ];
        kept = λ e s ne.
            let (m, g, h) = r.kept (pos_of e) s.slot e s.found s.inside ne in
            (
              kept_Seat new l c e slot (record { slot = m; found = g; inside = h }),
              rw (size, r.same_turn.1, r.same_turn.0),
            );
        arrives = (
          newcomer new c,
          place_Seat new l c slot,
          refl,
          refl,
          rw (size, r.same_turn.1, r.same_turn.0)
              (ticks_left-place n t.cur_slot d t.interval v.current),
        );
      },
    )
