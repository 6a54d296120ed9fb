-- ===== src/TimeWheel/Ticking.antt =====
-- A tick keeps the wheel valid, and starts the tasks of its slot that have no turn left.
use yukino_go.Base.{
  ℕ, ◌-◌, ◌<◌, ◌≡◌, ◌≢◌, refl, sym, ap, ◌∙◌, arith, true, false, some, List, [], ◌∷◌, ltb, In,
  lookup, delete, bytes_eq, bytes_beq_iff, lookup-delete, Bool-cases, ◌⊎◌, inl, inr,
}
use yukino_go.TimeWheel.{Element, execute}
use yukino_go.TimeWheel.Valid.{key_of}

abbrev pub cycle_left : Element → ℕ
cycle_left e = e.value.cycle

-- An element whose turn was counted.
abbrev pub turned : Element → Element
turned e = record e { value = record e.value { cycle = e.value.cycle - 1 } }

module _ where
  pub execute-kept :
      (l : List Element) (keys : List (List ℕ × Element)) (e : Element)
      → In e (execute l keys).0
      → (g : Element) × In g l × (0 < cycle_left g) × (e ≡ turned g)
  unfolding execute
  execute-kept [] keys e h = elim h [ ]
  execute-kept (x ∷ l) keys e h = elim (Bool-cases (ltb 0 (cycle_left x))) [
    | inl waits ↦
        let s : (turned x ≡ e) ⊎ In e (execute l keys).0 = rw waits at h in
        elim s [
          | inl same ↦ (x, inl refl, ground arith, sym same)
          | inr below ↦ let (g, mem, c, eq) = execute-kept l keys e below in (g, inr mem, c, eq)
        ]
    | inr starts ↦
        let s : In e (execute l (delete (key_of x) keys)).0 = rw starts at h in
        let (g, mem, c, eq) = execute-kept l (delete (key_of x) keys) e s in (g, inr mem, c, eq)
  ]

  pub kept-execute :
      (l : List Element) (keys : List (List ℕ × Element)) (g : Element)
      → In g l
      → 0 < cycle_left g
      → In (turned g) (execute l keys).0
  unfolding execute
  kept-execute [] keys g h c = elim h [ ]
  kept-execute (x ∷ l) keys g (inl same) c =
      let waits : ltb 0 (cycle_left x) ≡ true = ground (arith, ap cycle_left same) in
      rw waits (inl (ap turned same))
  kept-execute (x ∷ l) keys g (inr below) c = elim (Bool-cases (ltb 0 (cycle_left x))) [
    | inl waits ↦ rw waits (inr (kept-execute l keys g below c))
    | inr starts ↦ rw starts (kept-execute l (delete (key_of x) keys) g below c)
  ]

  pub execute-started :
      (l : List Element) (keys : List (List ℕ × Element)) (e : Element)
      → In e (execute l keys).2
      → In e l × (cycle_left e ≡ 0)
  unfolding execute
  execute-started [] keys e h = elim h [ ]
  execute-started (x ∷ l) keys e h = elim (Bool-cases (ltb 0 (cycle_left x))) [
    | inl waits ↦
        let s : In e (execute l keys).2 = rw waits at h in
        let r = execute-started l keys e s in (inr r.0, r.1)
    | inr starts ↦
        let s : (x ≡ e) ⊎ In e (execute l (delete (key_of x) keys)).2 = rw starts at h in
        elim s [
          | inl same ↦ (inl same, ground (arith, ap cycle_left same))
          | inr below ↦ let r = execute-started l (delete (key_of x) keys) e below in (inr r.0, r.1)
        ]
  ]

  pub started-execute :
      (l : List Element) (keys : List (List ℕ × Element)) (e : Element)
      → In e l
      → cycle_left e ≡ 0
      → In e (execute l keys).2
  unfolding execute
  started-execute [] keys e h c = elim h [ ]
  started-execute (x ∷ l) keys e (inl same) c =
      let starts : ltb 0 (cycle_left x) ≡ false = ground (arith, ap cycle_left same) in
      rw starts (inl same)
  started-execute (x ∷ l) keys e (inr below) c = elim (Bool-cases (ltb 0 (cycle_left x))) [
    | inl waits ↦ rw waits (started-execute l keys e below c)
    | inr starts ↦ rw starts (inr (started-execute l (delete (key_of x) keys) e below c))
  ]

  -- The map loses the keys of the tasks that start, and no other.
  pub lookup-execute :
      (l : List Element) (keys : List (List ℕ × Element)) (k : List ℕ)
      → ((e : Element) → In e (execute l keys).2 → key_of e ≢ k)
      → lookup k (execute l keys).1 ≡ lookup k keys
  unfolding execute
  lookup-execute [] keys k h = refl
  lookup-execute (x ∷ l) keys k h = elim (Bool-cases (ltb 0 (cycle_left x))) [
    | inl waits ↦ rw waits (lookup-execute l keys k (λ e m. h e (rw waits m)))
    | inr starts ↦ rw starts (
        lookup-execute l (delete (key_of x) keys) k (λ e m. h e (rw starts (inr m)))
        ∙ ground (
          arith,
          lookup-delete (key_of x) k keys,
          bytes_beq_iff (key_of x) k,
          h x (rw starts (inl refl)),
        ))
  ]

  pub execute-some :
      (l : List Element) (keys : List (List ℕ × Element)) (k : List ℕ) (f : Element)
      → lookup k (execute l keys).1 ≡ some f
      → lookup k keys ≡ some f
  unfolding execute
  execute-some [] keys k f h = h
  execute-some (x ∷ l) keys k f h = elim (Bool-cases (ltb 0 (cycle_left x))) [
    | inl waits ↦ execute-some l keys k f (rw waits at h)
    | inr starts ↦
        let below = execute-some l (delete (key_of x) keys) k f (rw starts at h) in
        ground (arith, lookup-delete (key_of x) k keys)
  ]
