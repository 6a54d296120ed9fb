-- ===== src/Tcc/Atomic.antt =====
-- What holds of every state that a transaction reaches.
use yukino_go.Base.{
  ℕ, ◌+◌, ◌-◌, ◌≤◌, ◌<◌, ◌≡◌, inl, inr, refl, sym, ◌∙◌, arith, Bool, true, List, [], ◌∷◌, ◌++◌, map,
  All, In, In-append, In-append_left, In-append_right, ok, >>=-eq-ok,
}
use yukino_go.Tcc.{
  ComponentId, Registry, ComponentTryEntity, TxRecord, TxStatus, tx_successful, tx_failure, Call,
  confirm, cancel, Answer, get_status, create_tx, hanging_entity, tx_update, tx_update_each,
  new_status, record_to_transaction, advance_progress,
}
use yukino_go.Tcc.System.{
  Snapshot, Decision, System, start, advanced, acked_calls, Step, passes, tries, updates, reads,
  advances,
}
use yukino_go.Tcc.Decisions.{Follows, Follows-self, Follows-trans, Acked, tx_update_each-Follows}
use yukino_go.Tcc.Advance.{advance_progress-IsAdvance}

-- A snapshot is of the row as it was: nothing that was settled in it has changed, and nothing at
-- all if it was read after the deadline.
pub record IsPast (s : System) (v : Snapshot) : Type 0 where
  pub follows : Follows v.tx.components s.row.component_try_statuses
  pub frozen : s.deadline < v.read_at → v.tx.components ≡ s.row.component_try_statuses
  pub same_time : v.tx.created_at ≡ s.row.created_at
  pub read_before : v.read_at ≤ s.now

pub record IsDecided (timeout : ℕ) (s : System) (d : Decision) : Type 0 where
  pub past : IsPast s d.snapshot
  pub decides : get_status (d.decided_at - timeout) d.snapshot.tx ≡ d.status

-- Some decision that was made.
abbrev pub Made : System → TxStatus → Type 0
Made s st = (d : Decision) × In d s.decisions × (d.status ≡ st)

pub record IsConsistent (timeout : ℕ) (s : System) : Type 0 where
  pub seen_past : (v : Snapshot) → In v s.seen → IsPast s v
  pub decided : (d : Decision) → In d s.decisions → IsDecided timeout s d
  pub confirms : (id : ComponentId) → In (confirm id) s.calls → Made s tx_successful
  pub cancels : (id : ComponentId) → In (cancel id) s.calls → Made s tx_failure
  pub acked : Acked (λ id. In (id, true) s.tried) s.row.component_try_statuses
  pub submitted :
      s.row.status ≡ tx_successful
      → All (λ c. In (confirm c.component_id) s.acks) s.row.component_try_statuses

-- The past stays the past when the row changes only before the deadline, and follows.
IsPast-later :
    (s t : System) (v : Snapshot)
    → Follows s.row.component_try_statuses t.row.component_try_statuses
    → (s.deadline < s.now → s.row.component_try_statuses ≡ t.row.component_try_statuses)
    → t.row.created_at ≡ s.row.created_at
    → s.now ≤ t.now
    → t.deadline ≡ s.deadline
    → IsPast s v
    → IsPast t v
IsPast-later s t v f z c n d p = record {
  follows =
      Follows-trans v.tx.components s.row.component_try_statuses t.row.component_try_statuses
        p.follows f;
  frozen = λ late. p.frozen (omega (arith, d)) ∙ z (omega (arith, d, p.read_before));
  same_time = p.same_time ∙ sym c;
  read_before = omega (arith, p.read_before);
}

hanging-Acked :
    (P : ComponentId → Type 0) (ids : List ComponentId) → Acked P (map hanging_entity ids)
hanging-Acked P [] = tt
hanging-Acked P (id ∷ ids) = (λ e. cc, hanging-Acked P ids)

Acked-more :
    {P Q : ComponentId → Type 0}
    → ((id : ComponentId) → P id → Q id)
    → (cs : List ComponentTryEntity) → Acked P cs
    → Acked Q cs
Acked-more f [] h = tt
Acked-more f (c ∷ cs) (h, more) = (λ e. f c.component_id (h e), Acked-more f cs more)

-- A property of the IDs.
abbrev pub Each : (ComponentId → Type 0) → List ComponentTryEntity → Type 0
Each P cs = All (λ c. P c.component_id) cs

Each-more :
    {P Q : ComponentId → Type 0}
    → ((id : ComponentId) → P id → Q id)
    → (cs : List ComponentTryEntity) → Each P cs
    → Each Q cs
Each-more f [] h = tt
Each-more f (c ∷ cs) (h, more) = (f c.component_id h, Each-more f cs more)

pub Each-Follows :
    (P : ComponentId → Type 0) (cs es : List ComponentTryEntity)
    → Follows cs es
    → Each P cs
    → Each P es
Each-Follows P [] [] f h = tt
Each-Follows P [] (e ∷ es) f h = absurd f
Each-Follows P (c ∷ cs) [] f h = absurd f
Each-Follows P (c ∷ cs) (e ∷ es) (i, s, f) (h, more) = (rw (sym i) h, Each-Follows P cs es f more)

pub Follows-same : {cs es : List ComponentTryEntity} → cs ≡ es → Follows cs es
Follows-same {cs} {es} e = rw (sym e) (Follows-self cs)

pub start-IsConsistent :
    (timeout : ℕ) (ids : List ComponentId) (deadline now : ℕ)
    → IsConsistent timeout (start ids deadline now)
unfolding start create_tx
start-IsConsistent timeout ids deadline now = record {
  seen_past = λ v h. elim h [ ];
  decided = λ d h. elim h [ ];
  confirms = λ id h. elim h [ ];
  cancels = λ id h. elim h [ ];
  acked = hanging-Acked (λ id. ⊥) ids;
  submitted = λ h. cc;
}

pub tx_update-Follows :
    (P : ComponentId → Type 0) (id : ComponentId) (accept : Bool) (row row' : TxRecord)
    → (accept ≡ true → P id)
    → tx_update id accept row ≡ ok row'
    → Follows row.component_try_statuses row'.component_try_statuses
      × (Acked P row.component_try_statuses → Acked P row'.component_try_statuses)
      × (row'.created_at ≡ row.created_at)
      × (row'.status ≡ row.status)
unfolding tx_update
tx_update-Follows P id accept row row' p h =
    let (cs, e, e') =
      >>=-eq-ok (tx_update_each id (new_status accept) row.component_try_statuses)
        (λ cs. ok (record row { component_try_statuses = cs })) h in
    let (f, k) = tx_update_each-Follows P id accept p row.component_try_statuses cs e in
    let out : record row { component_try_statuses = cs } ≡ row' = cc in
    rw (sym out) (f, k, refl, refl)

-- A step that makes no decision and calls nothing keeps what holds, if it keeps the past.
quiet-IsConsistent :
    (timeout : ℕ) (s t : System)
    → ((v : Snapshot) → IsPast s v → IsPast t v)
    → ((v : Snapshot) → In v t.seen → IsPast t v)
    → t.decisions ≡ s.decisions
    → t.calls ≡ s.calls
    → t.acks ≡ s.acks
    → Acked (λ id. In (id, true) t.tried) t.row.component_try_statuses
    → t.row.status ≡ s.row.status
    → Follows s.row.component_try_statuses t.row.component_try_statuses
    → IsConsistent timeout s
    → IsConsistent timeout t
quiet-IsConsistent timeout s t past seen same_decisions same_calls same_acks acked same_status f c =
    record {
      seen_past = seen;
      decided = λ d i.
          let old = c.decided d (rw same_decisions at i) in
          record { past = past d.snapshot old.past; decides = old.decides };
      confirms =
          λ id i. let (d, m, e) = c.confirms id (rw same_calls at i) in (d, rw same_decisions m, e);
      cancels =
          λ id i. let (d, m, e) = c.cancels id (rw same_calls at i) in (d, rw same_decisions m, e);
      acked = acked;
      submitted = λ h. rw same_acks (
          Each-Follows (λ id. In (confirm id) s.acks) s.row.component_try_statuses
            t.row.component_try_statuses f (c.submitted (sym same_status ∙ h)));
    }

advanced-IsConsistent :
    (timeout : ℕ) (s : System) (r : Registry) (answer : Call → Answer) (db_fails : Bool) (at : ℕ)
    (v : Snapshot)
    → In v s.seen
    → IsConsistent timeout s
    → IsConsistent timeout (advanced r answer db_fails at timeout v s)
unfolding advanced
advanced-IsConsistent timeout s r answer db_fails at v i c =
    let status = get_status (at - timeout) v.tx in
    let t = advanced r answer db_fails at timeout v s in
    let cs = s.row.component_try_statuses in
    let a = advance_progress-IsAdvance r answer db_fails at timeout v.tx s.row status refl in
    let calls = (advance_progress r answer db_fails at timeout v.tx s.row).0 in
    let acks = acked_calls answer calls in
    let same : cs ≡ t.row.component_try_statuses = sym a.same_components in
    let past : (w : Snapshot) → IsPast s w → IsPast t w =
      λ w p. IsPast-later s t w (Follows-same same) (λ h. same) a.same_time (omega arith) refl p in
    let older : (st : TxStatus) → Made s st → Made t st = λ st (d, m, e). (d, inr m, e) in
    let this : Decision = record { snapshot = v; decided_at = at; status = status } in
    record {
      seen_past = λ w j. past w (c.seen_past w j);
      decided = λ d j. elim j [
        | inl new ↦ rw (sym new) (record { past = past v (c.seen_past v i); decides = refl })
        | inr old ↦
            let o = c.decided d old in record { past = past d.snapshot o.past; decides = o.decides }
      ];
      confirms = λ id j. elim (In-append (confirm id) calls s.calls j) [
        | inl new ↦ (this, inl refl, a.confirms id new)
        | inr old ↦ older tx_successful (c.confirms id old)
      ];
      cancels = λ id j. elim (In-append (cancel id) calls s.calls j) [
        | inl new ↦ (this, inl refl, a.cancels id new)
        | inr old ↦ older tx_failure (c.cancels id old)
      ];
      acked = rw a.same_components c.acked;
      submitted = λ h. rw a.same_components (elim (a.submits h) [
        | inl old ↦
            Each-more (λ id j. In-append_right (confirm id) acks s.acks j) cs (c.submitted old)
        | inr (st, all) ↦
            Each-Follows (λ id. In (confirm id) (acks ++ s.acks)) v.tx.components cs
              (c.seen_past v i).follows
              (Each-more (λ id j. In-append_left (confirm id) acks s.acks j) v.tx.components all)
      ]);
    }

pub Step-IsConsistent :
    (timeout : ℕ) (s t : System)
    → Step timeout s t
    → IsConsistent timeout s
    → IsConsistent timeout t
unfolding advanced record_to_transaction
Step-IsConsistent timeout s t (passes d e) c =
    let cs = s.row.component_try_statuses in
    let past : (v : Snapshot) → IsPast s v → IsPast (record s { now = s.now + d }) v = λ v p.
      IsPast-later s (record s { now = s.now + d }) v (Follows-self cs) (λ h. refl) refl
        (omega arith) refl p in
    rw e (
      quiet-IsConsistent timeout s (record s { now = s.now + d }) past
        (λ v i. past v (c.seen_past v i)) refl refl refl c.acked refl (Follows-self cs) c)
Step-IsConsistent timeout s t (tries id accept e) c =
    let cs = s.row.component_try_statuses in
    let t' = record s { tried = (id, accept) ∷ s.tried } in
    let past : (v : Snapshot) → IsPast s v → IsPast t' v =
      λ v p. IsPast-later s t' v (Follows-self cs) (λ h. refl) refl (omega arith) refl p in
    rw e (
      quiet-IsConsistent timeout s t' past (λ v i. past v (c.seen_past v i)) refl refl refl
        (Acked-more (λ id i. inr i) cs c.acked) refl (Follows-self cs) c)
Step-IsConsistent timeout s t (updates id accept row i h u e) c =
    let t' = record s { row = row } in
    let (f, acked, time, status) =
      tx_update-Follows (λ id. In (id, true) s.tried) id accept s.row row (λ acked. rw acked at i)
        u in
    let past : (v : Snapshot) → IsPast s v → IsPast t' v =
      λ v p. IsPast-later s t' v f (λ late. absurd (omega arith)) time (omega arith) refl p in
    rw e (
      quiet-IsConsistent timeout s t' past (λ v j. past v (c.seen_past v j)) refl refl refl
        (acked c.acked) status f c)
Step-IsConsistent timeout s t (reads e) c =
    let cs = s.row.component_try_statuses in
    let v' : Snapshot = record { tx = record_to_transaction s.row; read_at = s.now } in
    let t' = record s { seen = v' ∷ s.seen } in
    let past : (v : Snapshot) → IsPast s v → IsPast t' v =
      λ v p. IsPast-later s t' v (Follows-self cs) (λ h. refl) refl (omega arith) refl p in
    let now : IsPast t' v' = record {
      follows = Follows-self cs;
      frozen = λ h. refl;
      same_time = refl;
      read_before = omega arith;
    } in
    rw e (
      quiet-IsConsistent timeout s t' past
        (λ v i. elim i [ inl new ↦ rw (sym new) now | inr old ↦ past v (c.seen_past v old) ]) refl
        refl refl c.acked refl (Follows-self cs) c)
Step-IsConsistent timeout s t (advances r answer db_fails at v i early now e) c =
    rw e (advanced-IsConsistent timeout s r answer db_fails at v i c)
