-- ===== src/Tcc/Advance.antt =====
-- What `advanceProgress` does to the row, and what it calls.
use mathlib.Core.Path.{subst}
use yukino_go.Base.{
  ℕ, ◌-◌, ◌≡◌, ◌⊎◌, inl, inr, refl, sym, ◌∙◌, Bool, true, false, Bool-cases, List, [], ◌∷◌, All, In,
  Res, >>=-eq-ok, ok, err, panic,
}
use yukino_go.Tcc.{
  ComponentId, Registry, ComponentTryEntity, Transaction, TxRecord, TxStatus, tx_hanging,
  tx_successful, tx_failure, Call, confirm, cancel, Answer, failed, no_ack, ack, confirm_or_cancel,
  Error, target, tx_submit, submit_status, submit, after_call, finish, existed, get_status,
  call_each, advance_progress,
}
use yukino_go.Tcc.System.{acked_calls}

-- The calls are all of one kind, and where the loop ends well every component has acknowledged.
after_call-kind :
    (id : ComponentId) (call c : Call) (later : List Call × Res Error (Unit {0})) (a : Answer)
    → In c (after_call id call later a).0
    → (call ≡ c) ⊎ In c later.0
unfolding after_call
after_call-kind id call c later (failed e) (inl h) = inl h
after_call-kind id call c later no_ack (inl h) = inl h
after_call-kind id call c later (failed e) (inr h) = elim h [ ]
after_call-kind id call c later no_ack (inr h) = elim h [ ]
after_call-kind id call c later ack (inl h) = inl h
after_call-kind id call c later ack (inr h) = inr h

call_each-kind :
    (r : Registry) (answer : Call → Answer) (success : Bool) (cs : List ComponentTryEntity)
    (call : Call)
    → In call (call_each r answer success cs).0
    → (id : ComponentId) × (confirm_or_cancel success id ≡ call)
unfolding call_each
call_each-kind r answer success [] call h = elim h [ ]
call_each-kind r answer success (c ∷ cs) call h = elim (Bool-cases (existed c.component_id r)) [
  | inl e ↦
      let here = confirm_or_cancel success c.component_id in
      let h' = rw e at h in
      elim (after_call-kind c.component_id here call (call_each r answer success cs) (answer here)
        h') [
          | inl this ↦ (c.component_id, this)
          | inr below ↦ call_each-kind r answer success cs call below
        ]
  | inr e ↦ let h' = rw e at h in elim h' [ ]
]

after_call-all :
    (P : List Call → Type 0) (id : ComponentId) (call : Call)
    (later : List Call × Res Error (Unit {0})) (a : Answer)
    → (after_call id call later a).1 ≡ ok tt
    → (a ≡ ack → later.1 ≡ ok tt → P (call ∷ later.0))
    → P (after_call id call later a).0
unfolding after_call
after_call-all P id call later (failed e) h p = cc
after_call-all P id call later no_ack h p = cc
after_call-all P id call later ack h p = p refl h

called_more :
    (success : Bool) (call : Call) (calls : List Call) (cs : List ComponentTryEntity)
    → All (λ c. In (confirm_or_cancel success c.component_id) calls) cs
    → All (λ c. In (confirm_or_cancel success c.component_id) (call ∷ calls)) cs
called_more success call calls [] h = tt
called_more success call calls (c ∷ cs) (i, h) = (inr i, called_more success call calls cs h)

acked_calls-ack :
    (answer : Call → Answer) (call : Call) (calls : List Call)
    → answer call ≡ ack
    → acked_calls answer (call ∷ calls) ≡ call ∷ acked_calls answer calls
acked_calls-ack answer call calls e = rw e refl

call_each-All :
    (r : Registry) (answer : Call → Answer) (success : Bool) (cs : List ComponentTryEntity)
    → (call_each r answer success cs).1 ≡ ok tt
    → All
        (λ c.
          In
            (confirm_or_cancel success c.component_id)
            (acked_calls answer (call_each r answer success cs).0))
        cs
unfolding call_each
call_each-All r answer success [] h = tt
call_each-All r answer success (c ∷ cs) h = elim (Bool-cases (existed c.component_id r)) [
  | inl e ↦
      let call = confirm_or_cancel success c.component_id in
      let later = call_each r answer success cs in
      let P : List Call → Type 0 = λ calls.
        All (λ x. In (confirm_or_cancel success x.component_id) (acked_calls answer calls))
          (c ∷ cs) in
      let same : call_each r answer success (c ∷ cs)
          ≡ after_call c.component_id call later (answer call) =
        rw e in
      subst (λ x. P x.0) (sym same)
        (after_call-all P c.component_id call later (answer call) (rw e at h) λ acks done.
          subst (λ calls. All (λ x. In (confirm_or_cancel success x.component_id) calls) (c ∷ cs))
            (sym (acked_calls-ack answer call later.0 acks))
            (
              inl refl,
              called_more success call (acked_calls answer later.0) cs
                  (call_each-All r answer success cs done),
            ))
  | inr e ↦ let h' = rw e at h in cc
]

submit_status-old :
    (success : Bool) (old new : TxStatus)
    → submit_status success old ≡ ok new
    → (new ≡ old) ⊎ (new ≡ target success)
unfolding submit_status
submit_status-old true tx_hanging new h = inr cc
submit_status-old false tx_hanging new h = inr cc
submit_status-old true tx_successful new h = inl cc
submit_status-old false tx_successful new h = cc
submit_status-old true tx_failure new h = cc
submit_status-old false tx_failure new h = inl cc

-- The components and the time of a row stay, and its status stays or is what is submitted.
record IsSubmitted (status : TxStatus) (row row' : TxRecord) : Type 0 where
  same_components : row'.component_try_statuses ≡ row.component_try_statuses
  same_time : row'.created_at ≡ row.created_at
  written_status : (row'.status ≡ row.status) ⊎ (row'.status ≡ status)

IsSubmitted-self : (st : TxStatus) (row : TxRecord) → IsSubmitted st row row
IsSubmitted-self st row = record {
  same_components = refl;
  same_time = refl;
  written_status = inl refl;
}

submit-IsSubmitted :
    (db_fails success : Bool) (row row' : TxRecord)
    → submit db_fails success row ≡ ok row'
    → IsSubmitted (target success) row row'
unfolding tx_submit
submit-IsSubmitted true success row row' h = cc
submit-IsSubmitted false success row row' h =
    let (st, e, e') =
      >>=-eq-ok (submit_status success row.status) (λ st. ok (record row { status = st })) h in
    let out : record row { status = st } ≡ row' = cc in
    rw (sym out) (record {
      same_components = refl;
      same_time = refl;
      written_status = submit_status-old success row.status st e;
    })

-- The outcome of a decision: the row is submitted, with the status of the decision, only after
-- every component of the transaction was called accordingly and has acknowledged the call.
pub record IsAdvance (answer : Call → Answer) (status : TxStatus) (tx : Transaction)
    (row row' : TxRecord) (calls : List Call) : Type 0 where
  pub same_components : row'.component_try_statuses ≡ row.component_try_statuses
  pub same_time : row'.created_at ≡ row.created_at
  pub confirms : (id : ComponentId) → In (confirm id) calls → status ≡ tx_successful
  pub cancels : (id : ComponentId) → In (cancel id) calls → status ≡ tx_failure
  pub submits :
      row'.status ≡ tx_successful
      → (row.status ≡ tx_successful)
        ⊎ ((status ≡ tx_successful)
            × All (λ c. In (confirm c.component_id) (acked_calls answer calls)) tx.components)

finish-row :
    (success : Bool) (row : TxRecord) (submitted : Res Error TxRecord)
    (done : List Call × Res Error (Unit {0}))
    → ((row' : TxRecord) → submitted ≡ ok row' → IsSubmitted (target success) row row')
    → ((finish row submitted done).0 ≡ done.0)
      × IsSubmitted (target success) row (finish row submitted done).1
      × (((finish row submitted done).1 ≡ row) ⊎ (done.1 ≡ ok tt))
unfolding finish
finish-row success row submitted (calls, err e) h =
    (refl, IsSubmitted-self (target success) row, inl refl)
finish-row success row submitted (calls, panic) h =
    (refl, IsSubmitted-self (target success) row, inl refl)
finish-row success row (ok row') (calls, ok u) h = (refl, h row' refl, inr refl)
finish-row success row (err e) (calls, ok u) h =
    (refl, IsSubmitted-self (target success) row, inl refl)
finish-row success row panic (calls, ok u) h =
    (refl, IsSubmitted-self (target success) row, inl refl)

-- `advanceProgress`, by the status that it goes by.
pub advance_progress-IsAdvance :
    (r : Registry) (answer : Call → Answer) (db_fails : Bool) (now timeout : ℕ) (tx : Transaction)
    (row : TxRecord)
    → (status : TxStatus) → get_status (now - timeout) tx ≡ status
    → let out = advance_progress r answer db_fails now timeout tx row in
      IsAdvance answer status tx row out.1 out.0
unfolding advance_progress
advance_progress-IsAdvance r answer db_fails now timeout tx row tx_hanging e =
    rw (e, advance_progress)
      (record {
        same_components = refl;
        same_time = refl;
        confirms = λ id h. elim h [ ];
        cancels = λ id h. elim h [ ];
        submits = λ h. inl h;
      })
advance_progress-IsAdvance r answer db_fails now timeout tx row tx_successful e =
    let done = call_each r answer true tx.components in
    let (calls, sub, when) =
      finish-row true row (submit db_fails true row) done
        (λ row' h. submit-IsSubmitted db_fails true row row' h) in
    rw (e, advance_progress, calls)
      (record {
        same_components = sub.same_components;
        same_time = sub.same_time;
        confirms = λ id h. refl;
        cancels =
            λ id h. let (x, k) = call_each-kind r answer true tx.components (cancel id) h in cc;
        submits = λ h. elim when [
          | inl same ↦ inl (rw same at h)
          | inr all ↦ inr (refl, call_each-All r answer true tx.components all)
        ];
      })
advance_progress-IsAdvance r answer db_fails now timeout tx row tx_failure e =
    let done = call_each r answer false tx.components in
    let (calls, sub, when) =
      finish-row false row (submit db_fails false row) done
        (λ row' h. submit-IsSubmitted db_fails false row row' h) in
    rw (e, advance_progress, calls)
      (record {
        same_components = sub.same_components;
        same_time = sub.same_time;
        confirms =
            λ id h. let (x, k) = call_each-kind r answer false tx.components (confirm id) h in cc;
        cancels = λ id h. refl;
        submits = λ h. elim sub.written_status [
          | inl same ↦ inl (sym same ∙ h)
          | inr other ↦ let bad : tx_failure ≡ tx_successful = sym other ∙ h in cc
        ];
      })
