-- ===== src/TimeWheel/History.antt =====
-- Runs of the wheel: every event its goroutine handles, and when a task is started in between.
use yukino_go.Base.{
  ℕ, suc, ◌+◌, ◌≤◌, ◌<◌, ◌≡◌, ◌≢◌, refl, sym, ap, ◌∙◌, arith, List, [], ◌∷◌, ◌++◌, In, In-append,
  In-append_left, In-append_right, ok, ◌>>=◌, inl, inr, ltb, Bool-cases, All,
}
use yukino_go.TimeWheel.{W, Element, TimeWheel, tick, add_task, remove_task}
use yukino_go.TimeWheel.Valid.{IsValid, Seat, key_of, pos_of}
use yukino_go.TimeWheel.Firing.{left, tick-Ticked, same_key-same}
use yukino_go.TimeWheel.Removal.{remove_task-Removed}
use yukino_go.TimeWheel.Placing.{add_task-Added}

-- What the loop of `run` selects.
pub data Event : Type 0 where
  ticks : Event
  adds : (now task : ℕ) (key : List ℕ) (execute_at : ℕ) → Event
  removes : (key : List ℕ) → Event

unfoldable pub handle : Event → TimeWheel → W (TimeWheel × List Element)
handle ticks t = tick t
handle (adds now task key execute_at) t = do t' ← add_task now task key execute_at t; ok (t', [])
handle (removes key) t = do t' ← remove_task key t; ok (t', [])

-- `run`, on the events that come before `stop`, with the tasks that are started, in order.
unfoldable pub run : List Event → TimeWheel → W (TimeWheel × List Element)
run [] t = ok (t, [])
run (e ∷ events) t = do
  (t', fired) ← handle e t
  (last, later) ← run events t'
  ok (last, fired ++ later)

abbrev pub tick_count : List Event → ℕ
tick_count [] = 0
tick_count (ticks ∷ events) = suc (tick_count events)
tick_count (adds now task key execute_at ∷ events) = tick_count events
tick_count (removes key ∷ events) = tick_count events

-- An event that is not about a key.
abbrev pub Spares : List ℕ → Event → Type 0
Spares k ticks = Unit
Spares k (adds now task key execute_at) = key ≢ k
Spares k (removes key) = key ≢ k

-- What an event that spares a key does to the task of the key, and to a key without a task.
pub record Handled (k : List ℕ) (e : Event) (t t' : TimeWheel) (fired : List Element) : Type 0 where
  pub valid : IsValid t'
  -- What fires was in the wheel, and was due.
  pub were_due : (s : Element) → In s fired → Seat t s × (left t s ≡ 0)
  pub idle : tick_count (e ∷ []) ≡ 0 → (s : Element) → In s fired → ⊥
  pub came : (s : Element) → Seat t' s → key_of s ≡ k → (g : Element) × Seat t g × (key_of g ≡ k)
  -- A task of the key starts, if it is due and time passes.
  pub starts : (s : Element) → Seat t s → key_of s ≡ k → left t s < tick_count (e ∷ []) → In s fired
  -- Otherwise it stays, nearer by the time that passes.
  pub stays :
      (s : Element)
      → Seat t s
      → key_of s ≡ k
      → tick_count (e ∷ []) ≤ left t s
      → (s' : Element) × Seat t' s'
        × (key_of s' ≡ k)
        × (s'.value.task ≡ s.value.task)
        × (left t s ≡ tick_count (e ∷ []) + left t' s')

pub handle-Handled :
    (k : List ℕ) (e : Event) (t : TimeWheel)
    → Spares k e
    → IsValid t
    → (t' : TimeWheel) × (fired : List Element) × (handle e t ≡ ok (t', fired))
      × Handled k e t t' fired
unfolding handle
handle-Handled k ticks t ne v =
    let (t', fired, ran, r) = tick-Ticked t v in
    (
      t',
      fired,
      ran,
      record {
        valid = r.valid;
        were_due = r.were_due;
        idle = λ z s h. absurd (omega arith);
        came = λ s h e. let (g, was, same) = r.came s h in (g, was, same ∙ e);
        starts = λ s h e due. r.starts s h (omega arith);
        stays = λ s h e later.
            let (s', h', a, key, task, nearer) = r.waits s h (omega arith) in
            (s', h', key ∙ e, task, omega arith);
      },
    )
handle-Handled k (adds now task key execute_at) t ne v =
    let (t', ran, r) = add_task-Added now task key execute_at t v in
    (
      t',
      [],
      rw ran,
      record {
        valid = r.valid;
        were_due = λ s h. elim h [ ];
        idle = λ z s h. h;
        came = λ s h e. elim (r.came s h) [
          | inl new ↦ absurd (ne (sym new ∙ e))
          | inr old ↦ (s, old, e)
        ];
        starts = λ s h e due. absurd (omega arith);
        stays = λ s h e later.
            let (h', same) = r.kept s h (λ q. ne (sym q ∙ e)) in (s, h', e, refl, omega arith);
      },
    )
handle-Handled k (removes key) t ne v =
    let (t', ran, r) = remove_task-Removed key t v in
    (
      t',
      [],
      rw ran,
      record {
        valid = r.valid;
        were_due = λ s h. elim h [ ];
        idle = λ z s h. h;
        came = λ s h e. (s, r.came s h, e);
        starts = λ s h e due. absurd (omega arith);
        stays = λ s h e later.
            let (m, g, i) = r.kept (pos_of s) h.slot s h.found h.inside (λ q. ne (sym q ∙ e)) in
            (
              s,
              record { slot = m; found = g; inside = i },
              e,
              refl,
              rw (r.same_turn.0, r.same_turn.1) (omega arith),
            );
      },
    )

tick_count-cons :
    (e : Event) (events : List Event)
    → tick_count (e ∷ events) ≡ tick_count (e ∷ []) + tick_count events
tick_count-cons ticks events = omega arith
tick_count-cons (adds now task key execute_at) events = omega arith
tick_count-cons (removes key) events = omega arith

-- A run over events that spare the key `k`.
pub record Ran (k : List ℕ) (events : List Event) (t t' : TimeWheel) (fired : List Element)
    : Type 0 where
  pub valid : IsValid t'
  -- A key without a task stays so, and no task of it is started.
  pub absent :
      ((s : Element) → Seat t s → key_of s ≢ k)
      → ((s : Element) → Seat t' s → key_of s ≢ k) × ((s : Element) → In s fired → key_of s ≢ k)
  -- A task that is due before the end starts.
  pub starts :
      (s : Element)
      → Seat t s
      → key_of s ≡ k
      → left t s < tick_count events
      → (s' : Element) × In s' fired × (key_of s' ≡ k) × (s'.value.task ≡ s.value.task)
  -- Of a task that is not, none of its key starts.
  pub waits :
      (s : Element)
      → Seat t s
      → key_of s ≡ k
      → tick_count events ≤ left t s
      → (s' : Element) → In s' fired
      → key_of s' ≢ k

pub run-Ran :
    (k : List ℕ) (events : List Event) (t : TimeWheel)
    → All (Spares k) events
    → IsValid t
    → (t' : TimeWheel) × (fired : List Element) × (run events t ≡ ok (t', fired))
      × Ran k events t t' fired
unfolding run
run-Ran k [] t h v = (
  t,
  [],
  refl,
  record {
    valid = v;
    absent = λ gone. (gone, λ s h'. elim h' [ ]);
    starts = λ s h' e due. absurd (omega arith);
    waits = λ s h' e later s' m. elim m [ ];
  },
)
run-Ran k (e ∷ events) t h v =
    let (t', fired, did, one) = handle-Handled k e t h.0 v in
    let (t'', later, ran, rest) = run-Ran k events t' h.1 one.valid in
    (
      t'',
      fired ++ later,
      rw (did, ran),
      record {
        valid = rest.valid;
        absent = λ gone.
            let still = λ (s : Element) (h' : Seat t' s) (q : key_of s ≡ k).
              let (g, was, same) = one.came s h' q in gone g was same in
            let (stays, none_later) = rest.absent still in
            (
              stays,
              λ s m. elim (In-append s fired later m) [
                | inl now ↦ gone s (one.were_due s now).0
                | inr then_later ↦ none_later s then_later
              ],
            );
        starts = λ s seat q due. elim (Bool-cases (ltb (left t s) (tick_count (e ∷ [])))) [
          | inl now ↦
              (s, In-append_left s fired later (one.starts s seat q (ground arith)), q, refl)
          | inr not_yet ↦
              let (s', seat', q', task, nearer) = one.stays s seat q (ground arith) in
              let (f, m, key, same) =
                rest.starts s' seat' q' (omega (arith, tick_count-cons e events)) in
              (f, In-append_right f fired later m, key, same ∙ task)
        ];
        waits = λ s seat q far f m same.
            let (s', seat', q', task, nearer) =
              one.stays s seat q (omega (arith, tick_count-cons e events)) in
            elim (In-append f fired later m) [
              | inl now ↦
                  let (was, zero_left) = one.were_due f now in
                  let it = same_key-same t v f s was seat (same ∙ sym q) in
                  one.idle (omega (arith, ap (left t) it, tick_count-cons e events)) f now
              | inr then_later ↦
                  rest.waits s' seat' q' (omega (arith, tick_count-cons e events)) f then_later same
            ];
      },
    )
