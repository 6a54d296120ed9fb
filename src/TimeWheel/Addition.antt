-- ===== src/TimeWheel/Addition.antt =====
-- Putting a task in its slot keeps the wheel valid.
use yukino_go.Base.{
  ℕ, ◌+◌, ◌<◌, ◌≡◌, ◌≢◌, sym, ap, ◌∙◌, arith, some, List, [], ◌∷◌, ◌++◌, get_elem?, In, In-append,
  lookup, insert, bytes_eq, bytes_beq, bytes_beq_iff, set, lookup-insert, length-set, Bool-cases,
  ◌⊎◌, inl, inr, lt-get_elem?,
}
use yukino_go.TimeWheel.{Element, TaskElement, TimeWheel}
use yukino_go.TimeWheel.Valid.{IsValid, key_of, pos_of}
use yukino_go.TimeWheel.Removal.{Absent, get_elem?-set_cases}

-- What `push_back` makes of a wheel; `l` is the slot.
abbrev pub pushed : TaskElement → List Element → TimeWheel → TimeWheel
pushed task l t =
    let e : Element = record { address = t.next_address; value = task } in
    record t {
      slots = set t.slots task.pos (l ++ e ∷ []);
      key_to_etask = insert task.key e t.key_to_etask;
      next_address = t.next_address + 1;
    }

abbrev pub newcomer : TaskElement → TimeWheel → Element
newcomer task t = record { address = t.next_address; value = task }

insert-some :
    (key k : List ℕ) (keys : List (List ℕ × Element)) (e f : Element)
    → lookup k (insert key e keys) ≡ some f
    → ((k ≡ key) × (f ≡ e)) ⊎ ((key ≢ k) × (lookup k keys ≡ some f))
insert-some key k keys e f h = elim (Bool-cases (bytes_beq key k)) [
  | inl same ↦ inl (ground (arith, lookup-insert key k e keys, bytes_beq_iff key k))
  | inr other ↦ inr (ground (arith, lookup-insert key k e keys, bytes_beq_iff key k))
]

insert_self :
    (key : List ℕ) (e : Element) (keys : List (List ℕ × Element))
    → lookup key (insert key e keys) ≡ some e
insert_self key e keys = ground (arith, lookup-insert key key e keys, bytes_beq_iff key key)

insert_other :
    (key k : List ℕ) (e : Element) (keys : List (List ℕ × Element))
    → key ≢ k
    → lookup k (insert key e keys) ≡ lookup k keys
insert_other key k e keys ne = ground (arith, lookup-insert key k e keys, bytes_beq_iff key k)

module _ (task : TaskElement) (l : List Element) (t : TimeWheel) (v : IsValid t)
    (gone : Absent task.key t) (slot : get_elem? t.slots task.pos ≡ some l) where
  -- An element of the new wheel is the new one, in its slot, or an old one.
  pub old_or_new :
      (i : ℕ) (m : List Element) (e : Element)
      → get_elem? (pushed task l t).slots i ≡ some m
      → In e m
      → ((i ≡ task.pos) × (e ≡ newcomer task t))
        ⊎ ((n : List Element) × (get_elem? t.slots i ≡ some n) × In e n)
  old_or_new i m e g h =
      elim (get_elem?-set_cases t.slots task.pos i (l ++ newcomer task t ∷ []) m g) [
        | inl (here, same) ↦ elim (In-append e l (newcomer task t ∷ []) (rw same at h)) [
          | inl old ↦ inr (l, ap (get_elem? t.slots) here ∙ slot, old)
          | inr (inl new) ↦ inl (here, sym new)
          | inr (inr no_more) ↦ absurd no_more
        ]
        | inr (there, same) ↦ inr (m, same, h)
      ]

  -- Nothing old has the new address.
  fresh :
      (i : ℕ) (n : List Element) (e : Element)
      → get_elem? t.slots i ≡ some n
      → In e n
      → e.address < t.next_address
  fresh i n e g h =
      let (f, found, addr, p, q) = v.seated i n e g h in
      let (a, b) = v.named (key_of e) f found in omega arith

  pub pushed-IsValid : IsValid (pushed task l t)
  pushed-IsValid = record {
    current = omega (arith, v.current, length-set t.slots task.pos (l ++ newcomer task t ∷ []));
    slow = v.slow;
    small = rw (length-set t.slots task.pos (l ++ newcomer task t ∷ [])) v.small;
    seated = λ i m e g h. elim (old_or_new i m e g h) [
      | inl (here, new) ↦ (
        newcomer task t,
        rw new (insert_self task.key (newcomer task t) t.key_to_etask),
        ap Element.address (sym new),
        ap pos_of new ∙ sym here,
        sym here,
      )
      | inr (n, was, mem) ↦
          let (f, found, addr, p, q) = v.seated i n e was mem in
          (
            f,
            insert_other task.key (key_of e) (newcomer task t) t.key_to_etask
                  (λ k. gone.1 i n e was mem (sym k))
                ∙ found,
            addr,
            p,
            q,
          )
    ];
    single = λ i m e e' g h h' a. elim (old_or_new i m e g h) [
      | inl (here, new) ↦ elim (old_or_new i m e' g h') [
        | inl (here', new') ↦ new ∙ sym new'
        | inr (n, was, mem) ↦
            absurd (omega (arith, fresh i n e' was mem, ap Element.address new, a))
      ]
      | inr (n, was, mem) ↦ elim (old_or_new i m e' g h') [
        | inl (here', new') ↦
            absurd (omega (arith, fresh i n e was mem, ap Element.address new', a))
        | inr (n', was', mem') ↦
            let same : n' ≡ n = cc in v.single i n e e' was mem (rw same at mem') a
      ]
    ];
    named = λ k f h. elim (insert-some task.key k t.key_to_etask (newcomer task t) f h) [
      | inl (same, new) ↦ (
        omega (
          arith,
          ap pos_of new,
          lt-get_elem? t.slots task.pos l slot,
          length-set t.slots task.pos (l ++ newcomer task t ∷ []),
        ),
        omega (arith, ap Element.address new),
      )
      | inr (other, was) ↦
          let (a, b) = v.named k f was in
          (rw (length-set t.slots task.pos (l ++ newcomer task t ∷ [])) a, omega arith)
    ];
    unique = λ j k f g h h' a. elim (insert-some task.key j t.key_to_etask (newcomer task t) f h) [
      | inl (same, new) ↦ elim (insert-some task.key k t.key_to_etask (newcomer task t) g h') [
        | inl (same', new') ↦ same ∙ sym same'
        | inr (other, was) ↦ absurd (omega (arith, v.named k g was, ap Element.address new, a))
      ]
      | inr (other, was) ↦ elim (insert-some task.key k t.key_to_etask (newcomer task t) g h') [
        | inl (same', new') ↦ absurd (omega (arith, v.named j f was, ap Element.address new', a))
        | inr (other', was') ↦ v.unique j k f g was was' a
      ]
    ];
  }
