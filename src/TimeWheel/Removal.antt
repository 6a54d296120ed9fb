-- ===== src/TimeWheel/Removal.antt =====
-- Removing a task keeps the wheel valid and leaves no element of its key.
use yukino_go.Base.{
  ℕ, ◌<◌, ◌≡◌, ◌≢◌, refl, sym, ap, ◌∙◌, arith, false, some, none, List, [], ◌∷◌, length, get_elem?,
  In, lookup, delete, bytes_eq, bytes_beq_iff, nat_beq, nat_beq_iff, ok, set, lookup-delete,
  length-set, get_elem?-set_self, get_elem?-set_ne, get_elem?-lt, Option-cases, Bool-cases, ◌⊎◌,
  inl, inr, lt-get_elem?,
}
use yukino_go.TimeWheel.{Element, TimeWheel, remove_element, remove_task}
use yukino_go.TimeWheel.Valid.{IsValid, Seat, key_of, pos_of}

pub In-remove_element :
    (a : ℕ) (e : Element) (l : List Element) → In e (remove_element a l) → In e l × (e.address ≢ a)
unfolding remove_element
In-remove_element a e [] h = elim h [ ]
In-remove_element a e (x ∷ l) h = elim (Bool-cases (nat_beq x.address a)) [
  | inl same ↦ let r = In-remove_element a e l (rw same at h) in (inr r.0, r.1)
  | inr other ↦
      let later : (x ≡ e) ⊎ In e (remove_element a l) = rw other at h in
      elim later [
        | inl first ↦ (
          inl first,
          λ same.
              absurd (cc (other, (nat_beq_iff x.address a).1 (ap Element.address first ∙ same))),
        )
        | inr below ↦ let r = In-remove_element a e l below in (inr r.0, r.1)
      ]
]

-- What a slot of a wheel is after one of its slots was replaced.
pub get_elem?-set_cases :
    (xs : List (List Element)) (i j : ℕ) (l m : List Element)
    → get_elem? (set xs i l) j ≡ some m
    → ((j ≡ i) × (m ≡ l)) ⊎ ((i ≢ j) × (get_elem? xs j ≡ some m))
get_elem?-set_cases xs i j l m h = elim (Bool-cases (nat_beq i j)) [
  | inl same ↦
      let e : i ≡ j = (nat_beq_iff i j).0 same in
      let h' : get_elem? (set xs i l) i ≡ some m = ap (get_elem? (set xs i l)) e ∙ h in
      let bound : i < length xs =
        omega (arith, lt-get_elem? (set xs i l) i m h', length-set xs i l) in
      let put = get_elem?-set_self xs i l bound in inl (sym e, cc)
  | inr other ↦
      let ne : i ≢ j = λ e. cc (other, (nat_beq_iff i j).1 e) in
      inr (ne, sym (get_elem?-set_ne xs i j l ne) ∙ h)
]

-- No element of the key is left.
abbrev pub Absent : List ℕ → TimeWheel → Type 0
Absent k t =
    (lookup k t.key_to_etask ≡ none)
    × ((i : ℕ) (l : List Element) (e : Element)
        → get_elem? t.slots i ≡ some l
        → In e l
        → key_of e ≢ k)

pub remove_element-In :
    (a : ℕ) (e : Element) (l : List Element) → In e l → e.address ≢ a → In e (remove_element a l)
unfolding remove_element
remove_element-In a e [] h ne = elim h [ ]
remove_element-In a e (x ∷ l) (inl first) ne =
    let other : nat_beq x.address a ≡ false =
      ground (arith, nat_beq_iff x.address a, ap Element.address first) in
    rw other (inl first)
remove_element-In a e (x ∷ l) (inr below) ne = elim (Bool-cases (nat_beq x.address a)) [
  | inl same ↦ rw same (remove_element-In a e l below ne)
  | inr other ↦ rw other (inr (remove_element-In a e l below ne))
]

-- The wheel without the element `f` of a key; `l` is its slot.
abbrev pub without : List ℕ → Element → List Element → TimeWheel → TimeWheel
without key f l t = record t {
  slots = set t.slots (pos_of f) (remove_element f.address l);
  key_to_etask = delete key t.key_to_etask;
}

delete_other :
    (key k : List ℕ) (keys : List (List ℕ × Element))
    → key ≢ k
    → lookup k (delete key keys) ≡ lookup k keys
delete_other key k keys ne = ground (arith, lookup-delete key k keys, bytes_beq_iff key k)

delete-some :
    (key k : List ℕ) (keys : List (List ℕ × Element)) (f : Element)
    → lookup k (delete key keys) ≡ some f
    → (key ≢ k) × (lookup k keys ≡ some f)
delete-some key k keys f h = ground (arith, lookup-delete key k keys, bytes_beq_iff key k)

module _ (key : List ℕ) (f : Element) (l : List Element) (t : TimeWheel) (v : IsValid t)
    (has : lookup key t.key_to_etask ≡ some f) (slot : get_elem? t.slots (pos_of f) ≡ some l) where
  one_entry : {k : List ℕ} {g : Element} → key ≡ k → lookup k t.key_to_etask ≡ some g → g ≡ f
  one_entry {k} {g} e h = let same : lookup k t.key_to_etask ≡ some f = rw e at has in cc

  -- An element that is left is not of the key.
  left_other :
      (i : ℕ) (m : List Element) (e : Element)
      → get_elem? (without key f l t).slots i ≡ some m
      → In e m
      → (key ≢ key_of e) × (n : List Element) × (get_elem? t.slots i ≡ some n) × In e n
  left_other i m e g h =
      elim (get_elem?-set_cases t.slots (pos_of f) i (remove_element f.address l) m g) [
        | inl (here, same) ↦
            let was = In-remove_element f.address e l (rw same at h) in
            let at : get_elem? t.slots i ≡ some l = rw here slot in
            let (f', found, addr, p, q) = v.seated i l e at was.0 in
            (λ k. was.1 (sym addr ∙ ap Element.address (one_entry k found)), l, at, was.0)
        | inr (there, same) ↦
            let (f', found, addr, p, q) = v.seated i m e same h in
            (λ k. there (ap pos_of (sym (one_entry k found)) ∙ q), m, same, h)
      ]

  without-IsValid : IsValid (without key f l t)
  without-IsValid = record {
    current = omega (arith, v.current, length-set t.slots (pos_of f) (remove_element f.address l));
    slow = v.slow;
    small = rw (length-set t.slots (pos_of f) (remove_element f.address l)) v.small;
    seated = λ i m e g h.
        let (ne, n, was, mem) = left_other i m e g h in
        let (f', found, addr, p, q) = v.seated i n e was mem in
        (f', delete_other key (key_of e) t.key_to_etask ne ∙ found, addr, p, q);
    single = λ i m e g' q h k a.
        let (ne, n, was, mem) = left_other i m e q h in
        let (ne', n', was', mem') = left_other i m g' q k in
        let same : n' ≡ n = cc in v.single i n e g' was mem (rw same at mem') a;
    named = λ k g h.
        let (ne, was) = delete-some key k t.key_to_etask g h in
        let (a, b) = v.named k g was in
        (rw (length-set t.slots (pos_of f) (remove_element f.address l)) a, b);
    unique = λ j k f1 g1 h h' a.
        v.unique j k f1 g1 (delete-some key j t.key_to_etask f1 h).1
          (delete-some key k t.key_to_etask g1 h').1 a;
  }

  without-Absent : Absent key (without key f l t)
  without-Absent = (
    ground (arith, lookup-delete key key t.key_to_etask, bytes_beq_iff key key),
    λ i m e g h k. (left_other i m e g h).0 (sym k),
  )

-- On a valid wheel `remove_task` returns; the wheel stays valid, and no element has the key.
pub record Removed (key : List ℕ) (t t' : TimeWheel) : Type 0 where
  pub valid : IsValid t'
  pub absent : Absent key t'
  pub same_turn : (t'.cur_slot ≡ t.cur_slot) × (length t'.slots ≡ length t.slots)
  pub same_interval : t'.interval ≡ t.interval
  pub came : (e : Element) → Seat t' e → Seat t e
  -- The elements of the other keys stay where they are.
  pub kept :
      (i : ℕ) (l : List Element) (e : Element)
      → get_elem? t.slots i ≡ some l
      → In e l
      → key_of e ≢ key
      → (m : List Element) × (get_elem? t'.slots i ≡ some m) × In e m

pub remove_task-Removed :
    (key : List ℕ) (t : TimeWheel)
    → IsValid t
    → (t' : TimeWheel) × (remove_task key t ≡ ok t') × Removed key t t'
unfolding remove_task
remove_task-Removed key t v = elim (Option-cases (lookup key t.key_to_etask)) [
  | inl gone ↦ (
    t,
    rw (gone, remove_task),
    record {
      valid = v;
      absent = (
        gone,
        λ i l e g h k.
            let (f, found, addr, p, q) = v.seated i l e g h in let f2 = rw k at found in cc,
      );
      same_turn = (refl, refl);
      same_interval = refl;
      came = λ e s. s;
      kept = λ i l e g h ne. (l, g, h);
    },
  )
  | inr (f, has) ↦
      let (l, slot) = get_elem?-lt t.slots (pos_of f) (v.named key f has).0 in
      (
        without key f l t,
        rw (has, remove_task, slot),
        record {
          valid = without-IsValid key f l t v has slot;
          absent = without-Absent key f l t v has slot;
          same_turn = (refl, length-set t.slots (pos_of f) (remove_element f.address l));
          same_interval = refl;
          came = λ e s.
              let (ne, n, at, mem) =
                left_other key f l t v has slot (pos_of e) s.slot e s.found s.inside in
              record { slot = n; found = at; inside = mem };
          kept = λ i m e g h ne. elim (Bool-cases (nat_beq (pos_of f) i)) [
            | inl same ↦
                let here = (nat_beq_iff (pos_of f) i).0 same in
                let at = ap (get_elem? t.slots) here in
                let one : m ≡ l = cc in
                let (f', found, addr, p, q) = v.seated i m e g h in
                (
                  remove_element f.address l,
                  ap (get_elem? (without key f l t).slots) (sym here)
                      ∙ get_elem?-set_self t.slots (pos_of f) (remove_element f.address l)
                          (v.named key f has).0,
                  remove_element-In f.address e l (rw one at h)
                      (λ a. ne (sym (v.unique key (key_of e) f f' has found (sym a ∙ sym addr)))),
                )
            | inr other ↦ (
              m,
              get_elem?-set_ne t.slots (pos_of f) i (remove_element f.address l)
                    (λ e'. cc (other, (nat_beq_iff (pos_of f) i).1 e'))
                  ∙ g,
              h,
            )
          ];
        },
      )
]
