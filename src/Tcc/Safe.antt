-- ===== src/Tcc/Safe.antt =====
-- What a transaction never does, whatever happens in whatever order.
use yukino_go.Base.{
  ℕ, ◌+◌, ◌-◌, ◌≤◌, ◌<◌, ◌≡◌, inl, inr, refl, sym, ◌∙◌, arith, true, Bool-cases, List, [], ◌∷◌, map,
  All, In, bytes_beq, ltb, ltb→lt, ok, >>=-eq-ok,
}
use yukino_go.Tcc.{
  ComponentId, Registry, ComponentTryEntity, tx_successful, tx_failure, try_hanging, try_failure,
  confirm, cancel, hanging_entity, create_tx, distinct_ids, get_components, request_components,
  existed,
}
use yukino_go.Tcc.System.{
  Decision, System, start, transaction, advanced, Step, passes, tries, updates, reads, advances,
  Reach, begins, goes_on,
}
use yukino_go.Tcc.Decisions.{
  AllTried, AllTried-Some, get_status-successful, get_status-failure, Follows, Follows-self,
  Follows-trans, Follows-AllTried, Follows-failed, Acked,
}
use yukino_go.Tcc.Advance.{advance_progress-IsAdvance}
use yukino_go.Tcc.Atomic.{
  IsConsistent, Made, Each, Follows-same, start-IsConsistent, Step-IsConsistent, tx_update-Follows,
}

-- The components of a transaction are those of its requests.
distinct_ids-same : (seen ids out : List ComponentId) → distinct_ids seen ids ≡ ok out → out ≡ ids
unfolding distinct_ids
distinct_ids-same seen [] out h = cc
distinct_ids-same seen (id ∷ ids) out h = elim (Bool-cases (bytes_beq id [])) [
  | inl none_there ↦ let bad = rw none_there at h in cc
  | inr named ↦
      let h' = rw named at h in
      elim (Bool-cases (existed id seen)) [
        | inl again ↦ let bad = rw again at h' in cc
        | inr first ↦
            let h2 = rw first at h' in
            let (more, e, e') =
              >>=-eq-ok (distinct_ids (id ∷ seen) ids) (λ more. ok (id ∷ more)) h2 in
            let same = distinct_ids-same (id ∷ seen) ids more e in cc
      ]
]

get_components-same :
    (ids out : List ComponentId) (r : Registry) → get_components ids r ≡ ok out → out ≡ ids
unfolding get_components
get_components-same [] out r h = cc
get_components-same (id ∷ ids) out r h = elim (Bool-cases (existed id r)) [
  | inl there ↦
      let h' = rw there at h in
      let (more, e, e') = >>=-eq-ok (get_components ids r) (λ more. ok (id ∷ more)) h' in
      let same = get_components-same ids more r e in cc
  | inr absent ↦ let bad = rw absent at h in cc
]

request_components-same :
    (requests out : List ComponentId) (r : Registry)
    → request_components requests r ≡ ok out
    → out ≡ requests
unfolding request_components
request_components-same [] out r h = cc
request_components-same (id ∷ ids) out r h =
    let (mid, e, e') =
      >>=-eq-ok (distinct_ids [] (id ∷ ids)) (λ component_ids. get_components component_ids r) h in
    get_components-same mid out r e' ∙ distinct_ids-same [] (id ∷ ids) mid e

-- The components of the row stay.
Step-Follows :
    (timeout : ℕ) (s t : System)
    → Step timeout s t
    → Follows s.row.component_try_statuses t.row.component_try_statuses
unfolding advanced
Step-Follows timeout s t (passes d e) = rw e (Follows-self s.row.component_try_statuses)
Step-Follows timeout s t (tries id accept e) = rw e (Follows-self s.row.component_try_statuses)
Step-Follows timeout s t (updates id accept row i h u e) =
    rw e (tx_update-Follows (λ id. Unit) id accept s.row row (λ acked. tt) u).0
Step-Follows timeout s t (reads e) = rw e (Follows-self s.row.component_try_statuses)
Step-Follows timeout s t (advances r answer db_fails at v i early now e) = rw e (
    Follows-same (
      sym
        (advance_progress-IsAdvance r answer db_fails at timeout v.tx s.row _
          refl).same_components))

Reach-Follows :
    {timeout : ℕ} {s t : System}
    → Reach timeout s t
    → Follows s.row.component_try_statuses t.row.component_try_statuses
Reach-Follows {s} begins = Follows-self s.row.component_try_statuses
Reach-Follows {timeout} {s} (goes_on {t} {u} r st) =
    Follows-trans s.row.component_try_statuses t.row.component_try_statuses
      u.row.component_try_statuses (Reach-Follows r) (Step-Follows timeout t u st)

Reach-IsConsistent :
    {timeout : ℕ} {s t : System}
    → Reach timeout s t
    → IsConsistent timeout s
    → IsConsistent timeout t
Reach-IsConsistent begins c = c
Reach-IsConsistent {timeout} (goes_on {t} {u} r st) c =
    Step-IsConsistent timeout t u st (Reach-IsConsistent r c)

-- What holds of the IDs of the row holds of the requests.
Each-ids :
    (P : ComponentId → Type 0) (ids : List ComponentId) (es : List ComponentTryEntity)
    → Follows (map hanging_entity ids) es
    → Each P es
    → All P ids
Each-ids P [] es f h = tt
Each-ids P (id ∷ ids) [] f h = absurd f
Each-ids P (id ∷ ids) (e ∷ es) (i, s, f) (h, more) = (rw i h, Each-ids P ids es f more)

Acked-AllTried :
    (P : ComponentId → Type 0) (cs : List ComponentTryEntity) → Acked P cs → AllTried cs → Each P cs
Acked-AllTried P [] h a = tt
Acked-AllTried P (c ∷ cs) (h, more) (a, others) = (h a, Acked-AllTried P cs more others)

-- A decision to confirm: every component had acknowledged its `Try`.
successful-AllTried :
    (timeout : ℕ) (s : System)
    → IsConsistent timeout s
    → Made s tx_successful
    → AllTried s.row.component_try_statuses
successful-AllTried timeout s c (d, i, e) =
    let o = c.decided d i in
    Follows-AllTried d.snapshot.tx.components s.row.component_try_statuses o.past.follows
      (get_status-successful (d.decided_at - timeout) d.snapshot.tx (o.decides ∙ e))

module _ (timeout : ℕ) (requests : List ComponentId) (r : Registry) (deadline now : ℕ)
    (s0 s : System) (begun : transaction requests r deadline now ≡ ok s0)
    (reach : Reach timeout s0 s) where
  consistent :
      IsConsistent timeout s × Follows (map hanging_entity requests) s.row.component_try_statuses
  unfolding transaction start create_tx
  consistent =
      let (ids, e, e') =
        >>=-eq-ok (request_components requests r) (λ ids. ok (start ids deadline now)) begun in
      let same = request_components-same requests ids r e in
      let s0_is : start ids deadline now ≡ s0 = cc in
      let f : Follows (map hanging_entity ids) s.row.component_try_statuses =
        Reach-Follows (rw (sym s0_is) at reach) in
      (
        Reach-IsConsistent reach (rw (sym s0_is) (start-IsConsistent timeout ids deadline now)),
        rw (sym same) f,
      )

  -- A component of a transaction is confirmed only after every component of its requests has
  -- acknowledged its `Try`.
  pub confirm_needs_acks :
      (id : ComponentId) → In (confirm id) s.calls → All (λ x. In (x, true) s.tried) requests
  confirm_needs_acks id h =
      let (c, f) = consistent in
      let all = successful-AllTried timeout s c (c.confirms id h) in
      Each-ids (λ x. In (x, true) s.tried) requests s.row.component_try_statuses f
        (Acked-AllTried (λ x. In (x, true) s.tried) s.row.component_try_statuses c.acked all)

  -- A transaction is submitted as successful only after each of its components has acknowledged its
  -- `Confirm`.
  pub submit_needs_confirms :
      s.row.status ≡ tx_successful → All (λ x. In (confirm x) s.acks) requests
  submit_needs_confirms h =
      let (c, f) = consistent in
      Each-ids (λ x. In (confirm x) s.acks) requests s.row.component_try_statuses f (c.submitted h)

  -- If a transaction has a component that is confirmed and one that is cancelled, then a decision
  -- to cancel was made after the timeout on what had been read before the deadline.
  pub conflict_needs_stale_read :
      (x y : ComponentId)
      → In (confirm x) s.calls
      → In (cancel y) s.calls
      → (d : Decision) × In d s.decisions
        × (d.status ≡ tx_failure)
        × (d.snapshot.read_at ≤ s.deadline)
        × (s.row.created_at + timeout < d.decided_at)
  conflict_needs_stale_read x y h k =
      let (c, f) = consistent in
      let all = successful-AllTried timeout s c (c.confirms x h) in
      let (d, i, e) = c.cancels y k in
      let o = c.decided d i in
      let cs = d.snapshot.tx.components in
      let fs = s.row.component_try_statuses in
      elim (get_status-failure (d.decided_at - timeout) d.snapshot.tx (o.decides ∙ e)) [
        | inl one ↦
            let bad = AllTried-Some try_failure fs all (Follows-failed cs fs o.past.follows one) in
            cc
        | inr (one, late) ↦
            let early : d.snapshot.read_at ≤ s.deadline =
              elim (Bool-cases (ltb s.deadline d.snapshot.read_at)) [
                | inl after ↦
                    let same = o.past.frozen (ltb→lt s.deadline d.snapshot.read_at after) in
                    let bad = AllTried-Some try_hanging cs (rw same all) one in cc
                | inr in_time ↦ ground arith
              ] in
            (d, i, e, early, omega (arith, o.past.same_time))
      ]
