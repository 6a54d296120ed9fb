-- ===== src/TimeWheel/Firing.antt =====
-- When a task is started: what a tick does to the wheel, and to each task in it.
use native.Mathlib.Nat.{mod-lt}
use yukino_go.Base.{
  ℕ, suc, ◌+◌, ◌%◌, ◌<◌, ◌≡◌, ◌≢◌, refl, sym, ap, ◌∙◌, arith, some, List, length, get_elem?, ltb,
  In, lookup, bytes_eq, nat_beq, nat_beq_iff, ok, set, length-set, get_elem?-set_self,
  get_elem?-set_ne, get_elem?-lt, Bool-cases, ◌⊎◌, inl, inr, lt-get_elem?,
}
use yukino_go.TimeWheel.{Element, TimeWheel, execute, tick, circular_incr}
use yukino_go.TimeWheel.Valid.{IsValid, Seat, key_of, pos_of}
use yukino_go.TimeWheel.Removal.{get_elem?-set_cases}
use yukino_go.TimeWheel.Turns.{
  ticks_left, ticks_left-other, ticks_left_self, ticks_left-zero, ticks_left-now,
}
use yukino_go.TimeWheel.Ticking.{
  cycle_left, turned, execute-kept, kept-execute, execute-started, started-execute, lookup-execute,
  execute-some,
}

-- The ticks that pass before the tick that starts it.
abbrev pub left : TimeWheel → Element → ℕ
left t e = ticks_left (length t.slots) t.cur_slot (pos_of e) (cycle_left e)

module _ (t : TimeWheel) (v : IsValid t) where
  -- A task of the current slot that has no turn left is due.
  due : (e : Element) → pos_of e ≡ t.cur_slot → cycle_left e ≡ 0 → left t e ≡ 0
  due e p c =
      ap (λ q. ticks_left (length t.slots) t.cur_slot q (cycle_left e)) p
      ∙ ap (λ d. ticks_left (length t.slots) t.cur_slot t.cur_slot d) c
      ∙ ticks_left-now (length t.slots) t.cur_slot v.current

  not_due :
      (e : Element) (l : List Element)
      → get_elem? t.slots (pos_of e) ≡ some l
      → (pos_of e ≡ t.cur_slot → 0 < cycle_left e)
      → 0 < left t e
  not_due e l g h = elim (Bool-cases (ltb 0 (left t e))) [
    | inl more ↦ ground arith
    | inr zero ↦
        let (here, none_left) =
          ticks_left-zero (length t.slots) t.cur_slot (pos_of e) (cycle_left e) v.current
            (lt-get_elem? t.slots (pos_of e) l g) (ground arith) in
        absurd (omega (arith, h here))
  ]

  -- Two elements of a wheel that share a key are one.
  pub same_key-same : (e g : Element) → Seat t e → Seat t g → key_of e ≡ key_of g → e ≡ g
  same_key-same e g s r k =
      let (f, has, addr, p, q) = v.seated (pos_of e) s.slot e s.found s.inside in
      let (f', has', addr', p', q') = v.seated (pos_of g) r.slot g r.found r.inside in
      let again : lookup (key_of e) t.key_to_etask ≡ some f' = rw k has' in
      let one : f ≡ f' = cc in
      let place : pos_of e ≡ pos_of g = sym q ∙ ap pos_of one ∙ q' in
      let slots : r.slot ≡ s.slot = cc (ap (get_elem? t.slots) place, s.found, r.found) in
      v.single (pos_of e) s.slot e g s.found s.inside (rw slots at r.inside)
        (sym addr ∙ ap Element.address one ∙ addr')

  module _ (l : List Element) (now : get_elem? t.slots t.cur_slot ≡ some l) where
    abbrev pub after : TimeWheel
    after = record t {
      slots = set t.slots t.cur_slot (execute l t.key_to_etask).0;
      key_to_etask = (execute l t.key_to_etask).1;
      cur_slot = (t.cur_slot + 1) % length t.slots;
    }

    abbrev pub started : List Element
    started = (execute l t.key_to_etask).2

    started-Seat :
        (s : Element) → In s started → Seat t s × (cycle_left s ≡ 0) × (pos_of s ≡ t.cur_slot)
    started-Seat s h =
        let (mem, none_left) = execute-started l t.key_to_etask s h in
        let (f, has, addr, p, q) = v.seated t.cur_slot l s now mem in
        (record { slot = l; found = rw p now; inside = mem }, none_left, p)

    -- A task that has ticks left keeps its entry in the map.
    waiting-keeps :
        (e : Element)
        → Seat t e
        → 0 < left t e
        → lookup (key_of e) after.key_to_etask ≡ lookup (key_of e) t.key_to_etask
    waiting-keeps e s waits = lookup-execute l t.key_to_etask (key_of e) (λ g h k.
        let (r, none_left, here) = started-Seat g h in
        let one = same_key-same g e r s k in
        absurd
          (omega (arith, due e (ap pos_of (sym one) ∙ here) (ap cycle_left (sym one) ∙ none_left))))

    -- What a slot has after the tick, it had before, with a turn more if it is the current one.
    was :
        (i : ℕ) (m : List Element) (e : Element)
        → get_elem? after.slots i ≡ some m
        → In e m
        → ((i ≡ t.cur_slot) × (g : Element) × In g l × (0 < cycle_left g) × (e ≡ turned g))
          ⊎ ((t.cur_slot ≢ i) × (get_elem? t.slots i ≡ some m))
    was i m e g h =
        elim (get_elem?-set_cases t.slots t.cur_slot i (execute l t.key_to_etask).0 m g) [
          | inl (here, same) ↦
              let (o, mem, c, eq) = execute-kept l t.key_to_etask e (rw same at h) in
              inl (here, o, mem, c, eq)
          | inr (there, same) ↦ inr (there, same)
        ]

    after-IsValid : IsValid after
    after-IsValid = record {
      current = omega (
        arith,
        v.current,
        length-set t.slots t.cur_slot (execute l t.key_to_etask).0,
        mod-lt (t.cur_slot + 1) {m = length t.slots} (omega (arith, v.current)),
      );
      slow = v.slow;
      small = rw (length-set t.slots t.cur_slot (execute l t.key_to_etask).0) v.small;
      seated = λ i m e g h. elim (was i m e g h) [
        | inl (here, o, mem, c, eq) ↦
            let (f, has, addr, p, q) = v.seated t.cur_slot l o now mem in
            let keeps =
              waiting-keeps o (record { slot = l; found = rw p now; inside = mem })
                (not_due o l (rw p now) (λ q'. c)) in
            (
              f,
              ap (λ k. lookup k after.key_to_etask) (ap key_of eq) ∙ keeps ∙ has,
              addr ∙ ap Element.address (sym eq),
              ap pos_of eq ∙ p ∙ sym here,
              q ∙ sym here,
            )
        | inr (there, same) ↦
            let (f, has, addr, p, q) = v.seated i m e same h in
            let keeps =
              waiting-keeps e (record { slot = m; found = rw p same; inside = h })
                (not_due e m (rw p same) (λ q'. absurd (there (sym q' ∙ p)))) in
            (f, keeps ∙ has, addr, p, q)
      ];
      single = λ i m e e' g h h' a. elim (was i m e g h) [
        | inl (here, o, mem, c, eq) ↦ elim (was i m e' g h') [
          | inl (here', o', mem', c', eq') ↦
              let one =
                v.single t.cur_slot l o o' now mem mem'
                  (ap Element.address (sym eq) ∙ a ∙ ap Element.address eq') in
              eq ∙ ap turned one ∙ sym eq'
          | inr (there, same) ↦ absurd (there (sym here))
        ]
        | inr (there, same) ↦ v.single i m e e' same h h' a
      ];
      named = λ k f h.
          let (a, b) = v.named k f (execute-some l t.key_to_etask k f h) in
          (rw (length-set t.slots t.cur_slot (execute l t.key_to_etask).0) a, b);
      unique = λ j k f g h h' a.
          v.unique j k f g (execute-some l t.key_to_etask j f h)
            (execute-some l t.key_to_etask k g h') a;
    }

    -- A task that is not due is one tick nearer.
    nearer :
        (e : Element)
        → Seat t e
        → 0 < left t e
        → (e' : Element) × Seat after e'
          × (e'.address ≡ e.address)
          × (key_of e' ≡ key_of e)
          × (e'.value.task ≡ e.value.task)
          × (left t e ≡ suc (left after e'))
    nearer e s more =
        let n = length t.slots in
        let size = length-set t.slots t.cur_slot (execute l t.key_to_etask).0 in
        let inside = lt-get_elem? t.slots (pos_of e) s.slot s.found in
        elim (Bool-cases (nat_beq t.cur_slot (pos_of e))) [
          | inl same ↦
              let here = (nat_beq_iff t.cur_slot (pos_of e)).0 same in
              let c : 0 < cycle_left e = elim (Bool-cases (ltb 0 (cycle_left e))) [
                | inl some_left ↦ ground arith
                | inr none_left ↦ absurd (omega (arith, due e (sym here) (ground arith)))
              ] in
              let slots : s.slot ≡ l = cc (ap (get_elem? t.slots) here, s.found, now) in
              (
                turned e,
                record {
                  slot = (execute l t.key_to_etask).0;
                  found =
                      ap (get_elem? after.slots) (sym here)
                      ∙ get_elem?-set_self t.slots t.cur_slot (execute l t.key_to_etask).0
                          v.current;
                  inside = kept-execute l t.key_to_etask e (rw slots at s.inside) c;
                },
                refl,
                refl,
                refl,
                rw size (
                    ticks_left_self n t.cur_slot (pos_of e) (cycle_left e) v.current inside
                      (sym here) c),
              )
          | inr other ↦
              let ne : t.cur_slot ≢ pos_of e =
                λ h. cc (other, (nat_beq_iff t.cur_slot (pos_of e)).1 h) in
              (
                e,
                record {
                  slot = s.slot;
                  found =
                      get_elem?-set_ne t.slots t.cur_slot (pos_of e) (execute l t.key_to_etask).0 ne
                      ∙ s.found;
                  inside = s.inside;
                },
                refl,
                refl,
                refl,
                rw size (
                    ticks_left-other n t.cur_slot (pos_of e) (cycle_left e) v.current inside
                      (λ h. ne (sym h))),
              )
        ]

-- What a tick does to a valid wheel.
pub record Ticked (t t' : TimeWheel) (fired : List Element) : Type 0 where
  pub valid : IsValid t'
  -- What it starts was due.
  pub were_due : (e : Element) → In e fired → Seat t e × (left t e ≡ 0)
  -- What was due it starts.
  pub starts : (e : Element) → Seat t e → left t e ≡ 0 → In e fired
  pub came : (e : Element) → Seat t' e → (g : Element) × Seat t g × (key_of g ≡ key_of e)
  -- What was not due is one tick nearer.
  pub waits :
      (e : Element)
      → Seat t e
      → 0 < left t e
      → (e' : Element) × Seat t' e'
        × (e'.address ≡ e.address)
        × (key_of e' ≡ key_of e)
        × (e'.value.task ≡ e.value.task)
        × (left t e ≡ suc (left t' e'))

pub tick-Ticked :
    (t : TimeWheel)
    → IsValid t
    → (t' : TimeWheel) × (fired : List Element) × (tick t ≡ ok (t', fired)) × Ticked t t' fired
unfolding tick circular_incr
tick-Ticked t v =
    let (l, now) = get_elem?-lt t.slots t.cur_slot v.current in
    let size = length-set t.slots t.cur_slot (execute l t.key_to_etask).0 in
    (
      after t v l now,
      started t v l now,
      rw (now, size),
      record {
        valid = after-IsValid t v l now;
        were_due = λ e h.
            let (s, none_left, here) = started-Seat t v l now e h in (s, due t v e here none_left);
        starts = λ e s zero_left.
            let (here, none_left) =
              ticks_left-zero (length t.slots) t.cur_slot (pos_of e) (cycle_left e) v.current
                (lt-get_elem? t.slots (pos_of e) s.slot s.found) zero_left in
            let slots : s.slot ≡ l = cc (ap (get_elem? t.slots) here, s.found, now) in
            started-execute l t.key_to_etask e (rw slots at s.inside) none_left;
        came = λ e s. elim (was t v l now (pos_of e) s.slot e s.found s.inside) [
          | inl (here, o, mem, c, eq) ↦
              let (f, has, addr, p, q) = v.seated t.cur_slot l o now mem in
              (o, record { slot = l; found = rw p now; inside = mem }, ap key_of (sym eq))
          | inr (there, same) ↦ (e, record { slot = s.slot; found = same; inside = s.inside }, refl)
        ];
        waits = nearer t v l now;
      },
    )
