-- ===== src/TimeWheel.antt =====
-- components/time_wheel/time_wheel.go: one goroutine owns the wheel and handles one event at a time.
-- The clock's reading is an argument, in nanoseconds.
pub mod Valid
pub mod Removal
pub mod Addition
pub mod Placing
mod Turns
pub mod Ticking
pub mod Firing
pub mod History
pub mod Timing
mod Tests
use yukino_go.Base.{
  ℕ, zero, suc, ◌+◌, ◌-◌, ◌*◌, ◌/◌, ◌%◌, ◌^◌, Bool, true, false, not, Option, none, some, List, [],
  ◌∷◌, ◌++◌, map, length, get_elem?, set, min, nat_beq, ltb, leb, if◌then◌else◌, lookup, insert,
  delete, bytes_eq, Res, ok, err, panic, ◌>>=◌, index,
}

-- `task` stands for the function: the runs of tasks are an output. A negative `cycle` does what 0
-- does: it is tested by `cycle > 0` only.
pub record TaskElement : Type 0 where
  pub task : ℕ
  pub pos : ℕ
  pub cycle : ℕ
  pub key : List ℕ
  pub execute_at : ℕ

-- `*list.Element`: its address and its value.
pub record Element : Type 0 where
  pub address : ℕ
  pub value : TaskElement

-- Of the elements in the map, only the address and `pos`, which never changes, are read.
pub record TimeWheel : Type 0 where
  pub interval : ℕ
  pub slots : List (List Element)
  pub cur_slot : ℕ
  pub key_to_etask : List (List ℕ × Element)
  pub next_address : ℕ

abbrev pub W : Type 0 → Type 0
W A = Res (Unit {0}) A

unfoldable pub empty_slots : ℕ → List (List Element)
empty_slots zero = []
empty_slots (suc n) = [] ∷ empty_slots n

-- `slot_num` and `interval` are the arguments with negative numbers replaced by 0.
unfoldable pub new_time_wheel : ℕ → ℕ → TimeWheel
new_time_wheel slot_num interval = record {
  interval = if nat_beq interval 0 then 1000000000 else interval;
  slots = empty_slots (if nat_beq slot_num 0 then 10 else slot_num);
  cur_slot = 0;
  key_to_etask = [];
  next_address = 0;
}

-- `l.Remove(e)`: the element with that address leaves the list.
unfoldable pub remove_element : ℕ → List Element → List Element
remove_element a [] = []
remove_element a (e ∷ l) =
    let rest = remove_element a l in if nat_beq e.address a then rest else e ∷ rest

-- The loop of `execute`: the list and the map after it, and the tasks that it starts.
unfoldable pub execute :
    List Element → List (List ℕ × Element) → List Element × List (List ℕ × Element) × List Element
execute [] keys = ([], keys, [])
execute (e ∷ l) keys =
    let later = execute l keys in
    let started = execute l (delete e.value.key keys) in
    if ltb 0 e.value.cycle
    then (
      record e { value = record e.value { cycle = e.value.cycle - 1 } } ∷ later.0,
      later.1,
      later.2,
    )
    else (started.0, started.1, e ∷ started.2)

unfoldable pub circular_incr : TimeWheel → TimeWheel
circular_incr t = record t { cur_slot = (t.cur_slot + 1) % length t.slots }

-- `tick`, with the tasks that it starts.
unfoldable pub tick : TimeWheel → W (TimeWheel × List Element)
tick t = do
  l ← index t.slots t.cur_slot
  let (kept, left, started) = execute l t.key_to_etask
  ok (
    circular_incr (record t { slots = set t.slots t.cur_slot kept; key_to_etask = left }),
    started,
  )

-- `delay / (len(t.slots) * int(t.interval))` in 64 bits; `turn` is the product.
unfoldable pub cycle_of : ℕ → ℕ → W ℕ
cycle_of delay turn =
    if nat_beq turn 0 then panic else if leb (2 ^ 63) turn then ok 0 else ok (delay / turn)

unfoldable pub get_pos_and_circle : ℕ → TimeWheel → ℕ → W (ℕ × ℕ)
get_pos_and_circle now t execute_at = do
  let delay = min (execute_at - now) (2 ^ 63 - 1)
  cycle ← cycle_of delay (length t.slots * t.interval % 2 ^ 64)
  let ahead = t.cur_slot + delay / t.interval
  if leb (2 ^ 63) ahead then panic else ok (ahead % length t.slots, cycle)

unfoldable pub remove_task : List ℕ → TimeWheel → W TimeWheel
remove_task key t = elim (lookup key t.key_to_etask) [
  | none ↦ ok t
  | some e ↦ do
    l ← index t.slots e.value.pos
    ok (record t {
      slots = set t.slots e.value.pos (remove_element e.address l);
      key_to_etask = delete key t.key_to_etask;
    })
]

-- `PushBack` and the map's entry, after an older task of the key is gone.
unfoldable pub push_back : TaskElement → TimeWheel → W TimeWheel
push_back task t = do
  l ← index t.slots task.pos
  let e : Element = record { address = t.next_address; value = task }
  ok (record t {
    slots = set t.slots task.pos (l ++ e ∷ []);
    key_to_etask = insert task.key e t.key_to_etask;
    next_address = t.next_address + 1;
  })

unfoldable pub add_task : ℕ → ℕ → List ℕ → ℕ → TimeWheel → W TimeWheel
add_task now task key execute_at t = do
  (pos, cycle) ← get_pos_and_circle now t execute_at
  cleared ← elim (lookup key t.key_to_etask) [ none ↦ ok t | some _ ↦ remove_task key t ]
  push_back (record { task = task; pos = pos; cycle = cycle; key = key; execute_at = execute_at })
      cleared
