-- ===== src/Raft/ReadOnly/Queue.antt =====
-- The queue of pending reads and the map of their states stay in step.
use yukino_go.Base.{
  ℕ, suc, ◌≡◌, ◌≢◌, refl, ap, sym, ◌∙◌, Bool, true, false, inl, inr, Bool-cases, Option, none, some,
  List, [], ◌∷◌, ◌++◌, All, drop, length, lookup, delete, bytes_eq, nat_eq, lookup-delete,
  bytes_beq, bytes_beq_iff, if◌then◌else◌, ok, ◌>>=◌, index,
}
use yukino_go.Raft.Model.{Entry}
use yukino_go.Raft.Storage.{R}
use yukino_go.Raft.ReadOnly.{ReadIndexStatus, ReadOnly, advance_loop, delete_all, advance}

abbrev Pending : Type 0
Pending = List (List ℕ × ReadIndexStatus)

-- The key under which `advance` deletes a status.
abbrev pub key_of : ReadIndexStatus → Option (List ℕ)
key_of rs = elim rs.req.entries [ [] ↦ none | e ∷ _ ↦ some e.bytes ]

-- A queued context has its status in the map, under its own key.
abbrev HasStatus : Pending → List ℕ → Type 0
HasStatus p k = (rs : ReadIndexStatus) × (lookup k p ≡ some rs) × (key_of rs ≡ some k)

abbrev Absent : List ℕ → List (List ℕ) → Type 0
Absent k [] = Unit {0}
Absent k (j ∷ q) = (j ≢ k) × Absent k q

abbrev Distinct : List (List ℕ) → Type 0
Distinct [] = Unit {0}
Distinct (k ∷ q) = Absent k q × Distinct q

pub record IsConsistent (ro : ReadOnly) : Type 0 where
  pub stored : All (HasStatus ro.pending_read_index) ro.read_index_queue
  pub distinct : Distinct ro.read_index_queue

-- What `advance ctx` splits off the queue: everything up to `ctx`, if it is queued.
pub released : List ℕ → List (List ℕ) → Option (List (List ℕ) × List (List ℕ))
released ctx [] = none
released ctx (k ∷ q) =
    let later = released ctx q in
    if bytes_beq k ctx
    then some (k ∷ [], q)
    else elim later [ none ↦ none | some (a, b) ↦ some (k ∷ a, b) ]

-- The statuses are those that the map has for the keys.
abbrev pub Keyed : Pending → List ReadIndexStatus → List (List ℕ) → Type 0
Keyed p [] [] = Unit {0}
Keyed p [] (k ∷ ks) = ⊥
Keyed p (rs ∷ rss) [] = ⊥
Keyed p (rs ∷ rss) (k ∷ ks) = (lookup k p ≡ some rs) × (key_of rs ≡ some k) × Keyed p rss ks

-- What the loop answers, by what is split off.
abbrev LoopSpec :
    Pending
    → List (List ℕ)
    → R (ℕ × List ReadIndexStatus × Bool)
    → Option (List (List ℕ) × List (List ℕ))
    → Type 0
LoopSpec p q res none = (i : ℕ) × (rss : List ReadIndexStatus) × (res ≡ ok (i, rss, false))
LoopSpec p q res (some (a, b)) =
    (rss : List ReadIndexStatus) × (res ≡ ok (length a, rss, true)) × Keyed p rss a × (q ≡ a ++ b)

LoopSpec-cons :
    (p : Pending) (k : List ℕ) (rs : ReadIndexStatus) (q : List (List ℕ))
    (res : R (ℕ × List ReadIndexStatus × Bool)) (o : Option (List (List ℕ) × List (List ℕ)))
    → lookup k p ≡ some rs
    → key_of rs ≡ some k
    → LoopSpec p q res o
    → LoopSpec p
        (k ∷ q)
        (do l ← res; ok (suc l.0, rs ∷ l.1, l.2))
        (elim o [ none ↦ none | some (a, b) ↦ some (k ∷ a, b) ])
LoopSpec-cons p k rs q res none l m (i, rss, e) = (suc i, rs ∷ rss, rw e refl)
LoopSpec-cons p k rs q res (some (a, b)) l m (rss, e, h, t) =
    (rs ∷ rss, rw e refl, (l, m, h), ap (λ xs. k ∷ xs) t)

advance_loop-LoopSpec :
    (p : Pending) (ctx : List ℕ) (q : List (List ℕ))
    → All (HasStatus p) q
    → LoopSpec p q (advance_loop p ctx q) (released ctx q)
unfolding advance_loop released
advance_loop-LoopSpec p ctx [] h = (0, [], refl)
advance_loop-LoopSpec p ctx (k ∷ q) ((rs, l, m), h) = elim (Bool-cases (bytes_beq k ctx)) [
  | inl same ↦ rw (same, l) (rs ∷ [], refl, (l, m, tt), refl)
  | inr other ↦
      rw (other, l)
        (LoopSpec-cons p k rs q (advance_loop p ctx q) (released ctx q) l m
          (advance_loop-LoopSpec p ctx q h))
]

with_key :
    {A : Type 0} (es : List Entry) (k : List ℕ) (g : List ℕ → R A)
    → (elim es [ [] ↦ none | e ∷ _ ↦ some e.bytes ]) ≡ some k
    → (do e ← index es 0; g e.bytes) ≡ g k
with_key [] k g h = cc
with_key (e ∷ es) k g h = let q : e.bytes ≡ k = cc in ap g q

skip : (k j : List ℕ) (o : Option ReadIndexStatus) → k ≢ j → (if bytes_beq k j then none else o) ≡ o
skip k j o n = elim (Bool-cases (bytes_beq k j)) [
  | inl same ↦ absurd (n ((bytes_beq_iff k j).0 same))
  | inr other ↦ rw other
]

-- Deleting the keys of the statuses leaves the other keys alone.
delete_all-eq :
    (p p0 : Pending) (rss : List ReadIndexStatus) (ks : List (List ℕ))
    → Keyed p rss ks
    → (p' : Pending) × (delete_all rss p0 ≡ ok p')
      × ((j : List ℕ) → Absent j ks → lookup j p' ≡ lookup j p0)
unfolding delete_all
delete_all-eq p p0 [] [] h = (p0, refl, λ j n. refl)
delete_all-eq p p0 [] (k ∷ ks) h = elim h [ ]
delete_all-eq p p0 (rs ∷ rss) [] h = elim h [ ]
delete_all-eq p p0 (rs ∷ rss) (k ∷ ks) (l, m, h) =
    let (p', e, f) = delete_all-eq p (delete k p0) rss ks h in
    (
      p',
      with_key rs.req.entries k (λ b. delete_all rss (delete b p0)) m ∙ e,
      λ j n. f j n.1 ∙ lookup-delete k j p0 ∙ skip k j (lookup j p0) n.0,
    )

not_first :
    (k : List ℕ) (a : List (List ℕ)) (j : List ℕ) (b : List (List ℕ))
    → Absent k (a ++ j ∷ b)
    → j ≢ k
not_first k [] j b h = h.0
not_first k (x ∷ a) j b h = not_first k a j b h.1

later-Absent :
    (a : List (List ℕ)) (j : List ℕ) (b : List (List ℕ)) → Distinct (a ++ j ∷ b) → Absent j a
later-Absent [] j b h = tt
later-Absent (x ∷ a) j b h = ((λ e. not_first x a j b h.0 (sym e)), later-Absent a j b h.1)

Distinct-drop_left : (a b : List (List ℕ)) → Distinct (a ++ b) → Distinct b
Distinct-drop_left [] b h = h
Distinct-drop_left (x ∷ a) b h = Distinct-drop_left a b h.1

All-drop_left : (P : List ℕ → Type 0) (a b : List (List ℕ)) → All P (a ++ b) → All P b
All-drop_left P [] b h = h
All-drop_left P (x ∷ a) b h = All-drop_left P a b h.1

Absent-remove :
    (k : List ℕ) (a : List (List ℕ)) (j : List ℕ) (c : List (List ℕ))
    → Absent k (a ++ j ∷ c)
    → Absent k (a ++ c)
Absent-remove k [] j c h = h.1
Absent-remove k (x ∷ a) j c h = (h.0, Absent-remove k a j c h.1)

Distinct-remove :
    (a : List (List ℕ)) (j : List ℕ) (c : List (List ℕ)) → Distinct (a ++ j ∷ c) → Distinct (a ++ c)
Distinct-remove [] j c h = h.1
Distinct-remove (x ∷ a) j c h = (Absent-remove x a j c h.0, Distinct-remove a j c h.1)

rest_stored :
    (p p' : Pending) (a c : List (List ℕ))
    → ((j : List ℕ) → Absent j a → lookup j p' ≡ lookup j p)
    → Distinct (a ++ c)
    → All (HasStatus p) c
    → All (HasStatus p') c
rest_stored p p' a [] f d h = tt
rest_stored p p' a (j ∷ c) f d ((rs, l, m), h) =
    ((rs, f j (later-Absent a j c d) ∙ l, m), rest_stored p p' a c f (Distinct-remove a j c d) h)

drop-append_self : (a b : List (List ℕ)) → drop (length a) (a ++ b) ≡ b
drop-append_self [] b = refl
drop-append_self (x ∷ a) b = drop-append_self a b

-- What `advance ctx` does to a consistent state, by what is split off its queue.
abbrev pub Advanced :
    ReadOnly → R (ReadOnly × List ReadIndexStatus) → Option (List (List ℕ) × List (List ℕ)) → Type 0
Advanced ro res none = res ≡ ok (ro, [])
Advanced ro res (some (a, b)) =
    (ro' : ReadOnly) × (rss : List ReadIndexStatus) × (res ≡ ok (ro', rss))
    × Keyed ro.pending_read_index rss a
    × (ro'.read_index_queue ≡ b)
    × (ro.read_index_queue ≡ a ++ b)
    × IsConsistent ro'

advance_by :
    (ro : ReadOnly) (ctx : List ℕ) (o : Option (List (List ℕ) × List (List ℕ)))
    → IsConsistent ro
    → LoopSpec ro.pending_read_index ro.read_index_queue
        (advance_loop ro.pending_read_index ctx ro.read_index_queue)
        o
    → Advanced ro (advance ro ctx) o
unfolding advance
advance_by ro ctx none c (i, rss, e) = rw e refl
advance_by ro ctx (some (a, b)) c (rss, e, h, t) =
    let (p', d, f) = delete_all-eq ro.pending_read_index ro.pending_read_index rss a h in
    let q : drop (length a) ro.read_index_queue ≡ b = rw t (drop-append_self a b) in
    (
      record { pending_read_index = p'; read_index_queue = b },
      rss,
      rw (e, d, q) refl,
      h,
      refl,
      t,
      record {
        stored =
            rest_stored ro.pending_read_index p' a b f (rw t at c.distinct)
              (All-drop_left _ a b (rw t at c.stored));
        distinct = Distinct-drop_left a b (rw t at c.distinct);
      },
    )

-- On a consistent queue `advance ctx` never panics: it releases, in order, the reads up to `ctx`
-- with the states that were stored for them, keeps the others queued, and releases nothing when
-- `ctx` is not queued.
pub advance-Advanced :
    (ro : ReadOnly) (ctx : List ℕ)
    → IsConsistent ro
    → Advanced ro (advance ro ctx) (released ctx ro.read_index_queue)
advance-Advanced ro ctx c =
    advance_by ro ctx (released ctx ro.read_index_queue) c
      (advance_loop-LoopSpec ro.pending_read_index ctx ro.read_index_queue c.stored)
