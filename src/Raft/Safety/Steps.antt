-- ===== src/Raft/Safety/Steps.antt =====
-- `Step` and the ticks: the theorems on what a step of a node keeps.
use yukino_go.Base.{
  ◌+◌, ◌≤◌, ◌<◌, ◌≡◌, ◌≢◌, refl, arith, true, false, not, ◌&&◌, ltb, u64, if◌then◌else◌, Ensures,
  Ensures-ok, Ensures-if, add32, le_s32,
}
use yukino_go.Raft.Model.{
  Message, MessageType, type_beq, msg_hup, msg_heartbeat, msg_vote, msg_pre_vote, state_beq,
  state_leader,
}
use yukino_go.Raft.State.{
  Raft, TickFunc, tick_election, tick_heartbeat, promotable, past_election_timeout,
}
use yukino_go.Raft.Step.{dispatch, bumps_term, meet_term, is_stale, step_raft, run_tick}
use yukino_go.Raft.Safety.Later.{Later, Later-refl, Later-same}
use yukino_go.Raft.Safety.Handlers.{from_Later}
use yukino_go.Raft.Safety.Elections.{run_step-Later, on_hup-Later, on_vote-Later}

dispatch-Later :
    (t : MessageType) (m : Message) (r : Raft)
    → m.type ≡ t
    → r.term + 1 < u64
    → (m.type ≡ msg_heartbeat → r.term ≤ m.term)
    → (type_beq m.type msg_vote ≡ true → m.term ≤ r.term)
    → Ensures (Later r) (dispatch t m r)
unfolding dispatch
dispatch-Later msg_hup m r e h k v = on_hup-Later r h
dispatch-Later msg_vote m r e h k v = on_vote-Later m r v
dispatch-Later msg_pre_vote m r e h k v = on_vote-Later m r v
dispatch-Later _ m r e h k v = run_step-Later r.step m r h k

Later-meet_term : (m : Message) (r : Raft) → Later r (meet_term m r)
unfolding meet_term
Later-meet_term m r = ground arith

-- The term after the first `switch` of `Step`.
term-meet_term :
    (m : Message) (r : Raft)
    → (meet_term m r).term ≡ (if ltb r.term m.term && bumps_term m then m.term else r.term)
unfolding meet_term
term-meet_term m r = ground arith

record Met (m : Message) (r : Raft) : Type 0 where
  bound : (meet_term m r).term + 1 < u64
  beat : m.type ≡ msg_heartbeat → (meet_term m r).term ≤ m.term
  voter : type_beq m.type msg_vote ≡ true → m.term ≤ (meet_term m r).term

meet_term-Met :
    (t : MessageType) (m : Message) (r : Raft)
    → m.type ≡ t
    → r.term + 1 < u64
    → m.term + 1 < u64
    → (m.type ≡ msg_heartbeat → m.term ≢ 0)
    → is_stale m r ≡ false
    → Met m r
meet_term-Met msg_vote m r e h k b s = ground (arith, term-meet_term m r)
meet_term-Met msg_heartbeat m r e h k b s = ground (arith, term-meet_term m r, b)
meet_term-Met t m r e h k b s = ground (arith, term-meet_term m r)

-- Where the terms of the node and of the message are below 2^64 - 1, and the message is not a
-- heartbeat of term 0: if `Step` returns, the term has not fallen, the vote that was given in a term
-- is not taken back or changed, the commit index has not fallen, and the id is the same.
pub step_raft-Later :
    (m : Message) (r : Raft)
    → r.term + 1 < u64
    → m.term + 1 < u64
    → (m.type ≡ msg_heartbeat → m.term ≢ 0)
    → Ensures (Later r) (step_raft m r)
unfolding step_raft
step_raft-Later m r h k b =
    Ensures-if (is_stale m r) (λ _. Ensures-ok (ground arith))
      (λ live.
        let met : Met m r = meet_term-Met m.type m r refl h k b live in
        from_Later r (meet_term m r) _ (Later-meet_term m r)
          (dispatch-Later m.type m (meet_term m r) refl met.bound met.beat met.voter))

-- The same of a tick, election timeout or heartbeat, of a node whose term is below 2^64 - 1.
pub run_tick-Later : (f : TickFunc) (r : Raft) → r.term + 1 < u64 → Ensures (Later r) (run_tick f r)
unfolding run_tick
run_tick-Later tick_election r h =
    let r' = record r { election_elapsed = add32 r.election_elapsed 1 } in
    Ensures-if (promotable r'.id r' && past_election_timeout r')
      (λ _.
        from_Later r _ _ (Later-same r _ refl refl (omega arith) refl)
          (step_raft-Later _ _ h (omega arith) (λ e. cc)))
      (λ _. Ensures-ok (Later-same r _ refl refl (omega arith) refl))
run_tick-Later tick_heartbeat r h =
    Ensures-if (not (state_beq r.state state_leader)) (λ _. Ensures-ok (Later-refl r))
      λ _.
        Ensures-if (le_s32 r.heartbeat_timeout (add32 r.heartbeat_elapsed 1))
          (λ _.
            from_Later r _ _ (Later-same r _ refl refl (omega arith) refl)
              (step_raft-Later _ _ h (omega arith) (λ e. cc)))
          (λ _. Ensures-ok (Later-same r _ refl refl (omega arith) refl))
