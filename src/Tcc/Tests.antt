-- ===== src/Tcc/Tests.antt =====
-- Runs of a transaction, and the theorems at concrete inputs.
use yukino_go.Base.{
  ◌+◌, ◌≤◌, ◌<◌, ◌≡◌, refl, arith, inl, inr, true, false, List, [], ◌∷◌, All, In, ok,
}
use yukino_go.Tcc.{
  ComponentId, TxRecord, tx_successful, tx_failure, tx_hanging, try_successful, Call, confirm,
  cancel, Answer, ack, create_tx, tx_update, tx_update_each, settle, submit_status, tx_submit,
  record_to_transaction, hanging_exist, get_status, call_each, after_call, finish, advance_progress,
  existed, distinct_ids, get_components, request_components,
}
use yukino_go.Tcc.System.{
  Decision, Snapshot, System, start, transaction, advanced, passes, tries, updates, reads, advances,
  Reach, begins, goes_on,
}
use yukino_go.Tcc.Safe.{confirm_needs_acks, submit_needs_confirms, conflict_needs_stale_read}

abbrev payment : ComponentId
payment = 112 ∷ []

abbrev requests : List ComponentId
requests = payment ∷ []

abbrev willing : Call → Answer
willing call = ack

abbrev first_state : System
first_state = start requests 10 0

-- A monitor reads, the component is tried, and the transaction is confirmed and submitted.
abbrev read_state : System
read_state = record first_state {
  seen = record { tx = record_to_transaction first_state.row; read_at = 0 } ∷ [];
}

abbrev tried_state : System
tried_state = record read_state { tried = (payment, true) ∷ [] }

abbrev success : TxRecord
success = record {
  component_try_statuses = record { component_id = payment; try_status = try_successful } ∷ [];
  status = tx_hanging;
  created_at = 0;
}

abbrev updated_state : System
updated_state = record tried_state { row = success }

abbrev again_state : System
again_state = record updated_state {
  seen = record { tx = record_to_transaction success; read_at = 0 } ∷ updated_state.seen;
}

abbrev confirmed_state : System
confirmed_state =
    advanced requests willing false 0 10
      (record { tx = record_to_transaction success; read_at = 0 }) again_state

-- The monitor goes on with what it had read once the timeout is over.
abbrev late_state : System
late_state = record confirmed_state { now = confirmed_state.now + 11 }

abbrev old_snapshot : Snapshot
old_snapshot = record { tx = record_to_transaction first_state.row; read_at = 0 }

abbrev both_state : System
both_state = advanced requests willing false 11 10 old_snapshot late_state

begun : transaction requests requests 10 0 ≡ ok first_state
unfolding transaction request_components distinct_ids existed get_components
begun = refl

to_confirmed : Reach 10 first_state confirmed_state
unfolding start create_tx tx_update tx_update_each settle record_to_transaction
to_confirmed =
    goes_on
      (goes_on
        (goes_on (goes_on (goes_on begins (reads refl)) (tries payment true refl))
          (updates payment true success (inl refl) (omega arith) refl refl))
        (reads refl))
      (advances requests willing false 0
        (record { tx = record_to_transaction success; read_at = 0 }) (inl refl) (omega arith)
        (omega arith) refl)

to_both : Reach 10 first_state both_state
unfolding start create_tx advanced record_to_transaction
to_both = goes_on (goes_on to_confirmed (passes 11 refl)) (
    advances requests willing false 11 old_snapshot (inr (inl refl)) (omega arith) (omega arith)
      refl)

-- The component is then cancelled after it was confirmed.
both_called : both_state.calls ≡ cancel payment ∷ confirm payment ∷ []
unfolding start create_tx advanced record_to_transaction advance_progress get_status hanging_exist
    call_each after_call finish existed tx_submit submit_status
both_called = refl

confirmed_there : In (confirm payment) confirmed_state.calls
unfolding start create_tx advanced record_to_transaction advance_progress get_status hanging_exist
    call_each after_call finish existed tx_submit submit_status
confirmed_there = inl refl

submitted_there : confirmed_state.row.status ≡ tx_successful
unfolding start create_tx advanced record_to_transaction advance_progress get_status hanging_exist
    call_each after_call finish existed tx_submit submit_status
submitted_there = refl

both_confirmed : In (confirm payment) both_state.calls
both_confirmed = rw both_called (inr (inl refl))

both_cancelled : In (cancel payment) both_state.calls
both_cancelled = rw both_called (inl refl)

confirm_needs_acks_example : All (λ x. In (x, true) confirmed_state.tried) requests
confirm_needs_acks_example =
    confirm_needs_acks 10 requests requests 10 0 first_state confirmed_state begun to_confirmed
      payment confirmed_there

submit_needs_confirms_example : All (λ x. In (confirm x) confirmed_state.acks) requests
submit_needs_confirms_example =
    submit_needs_confirms 10 requests requests 10 0 first_state confirmed_state begun to_confirmed
      submitted_there

conflict_needs_stale_read_example :
    (d : Decision) × In d both_state.decisions
    × (d.status ≡ tx_failure)
    × (d.snapshot.read_at ≤ both_state.deadline)
    × (both_state.row.created_at + 10 < d.decided_at)
conflict_needs_stale_read_example =
    conflict_needs_stale_read 10 requests requests 10 0 first_state both_state begun to_both payment
      payment both_confirmed both_cancelled
