-- ===== src/Raft/Safety/Elections.antt =====
-- Candidates, votes and ticks respect `Later`.
use yukino_go.Base.{
  ℕ, ◌+◌, ◌-◌, ◌≤◌, ◌<◌, ◌≡◌, refl, arith, Bool, true, not, ◌||◌, ◌&&◌, [], ◌∷◌, length, nat_beq,
  ltb, u64, add64, must, Ensures, Ensures-ok, Ensures-panic, Ensures-if, Ensures-then, Ensures-bind,
}
use yukino_go.Raft.Model.{
  Message, MessageType, type_beq, msg_app, msg_heartbeat, msg_prop, msg_vote, msg_pre_vote,
  state_beq, state_leader, state_follower, state_pre_candidate, campaign_election,
  campaign_pre_election, CampaignType, num_of_pending_conf,
}
use yukino_go.Raft.Storage.{dummy}
use yukino_go.Raft.Log.{last_index, last_term, log_slice, is_up_to_date}
use yukino_go.Raft.State.{
  Raft, StepFunc, step_follower, step_candidate, step_leader, quorum, poll, promotable,
}
use yukino_go.Raft.Campaign.{
  become_pre_candidate, become_candidate, become_leader, request_vote, campaign_real, campaign,
  vote_resp_type, on_vote_resp, candidate_on, run_candidate,
}
use yukino_go.Raft.Step.{run_step, on_hup, on_vote}
use yukino_go.Raft.Safety.Later.{
  Later, Keeps, Later-refl, Later-trans, Later-same, Later-become_follower,
}
use yukino_go.Raft.Safety.Handlers.{
  from_Later, handle_append_entries-Later, handle_heartbeat-Later, append_entry-Later,
  for_peers-Later, broadcast_append-Later, run_follower-Later, run_leader-Later,
}

become_pre_candidate-Later :
    (r : Raft) → Ensures (λ s. Later r s × (s.term ≡ r.term)) (become_pre_candidate r)
unfolding become_pre_candidate
become_pre_candidate-Later r =
    Ensures-if (state_beq r.state state_leader) (λ _. Ensures-panic)
      (λ _. Ensures-ok (Later-same r _ refl refl (omega arith) refl, refl))

become_candidate-Later : (r : Raft) → r.term + 1 < u64 → Ensures (Later r) (become_candidate r)
unfolding become_candidate
become_candidate-Later r h =
    Ensures-if (state_beq r.state state_leader) (λ _. Ensures-panic)
      (λ _. Ensures-ok (ground arith))

become_leader-Later : Keeps become_leader
unfolding become_leader
become_leader-Later r =
    Ensures-if (state_beq r.state state_follower) (λ _. Ensures-panic)
      λ _.
        Ensures-then (last_index r.raft_log) _
          λ last _. from_Later r _ _ (ground arith) (append_entry-Later (dummy ∷ []) _)

request_vote-Later : (t : ℕ) (type : MessageType) (id : ℕ) → Keeps (request_vote t type id)
unfolding request_vote
request_vote-Later t type id r = Ensures-then (last_term r.raft_log) _ λ lt _.
    Ensures-then (last_index r.raft_log) _
      λ li _. Ensures-ok (Later-same r _ refl refl (omega arith) refl)

Later-poll : (id : ℕ) (v : Bool) (r : Raft) → Later r (poll id v r).0
unfolding poll
Later-poll id v r = Later-same r _ refl refl (omega arith) refl

term-poll : (id : ℕ) (v : Bool) (r : Raft) → (poll id v r).0.term ≡ r.term
unfolding poll
term-poll id v r = refl

campaign_real-Later : (r : Raft) → r.term + 1 < u64 → Ensures (Later r) (campaign_real r)
unfolding campaign_real
campaign_real-Later r h = Ensures-bind (become_candidate r) _ (become_candidate-Later r h) λ s l.
    let polled = poll s.id true s in
    from_Later r polled.0 _ (Later-trans r s _ l (Later-poll s.id true s)) (
      Ensures-if (nat_beq (quorum s) polled.1) (λ _. become_leader-Later polled.0)
        (λ _. for_peers-Later _ _ (request_vote-Later s.term msg_vote) polled.0))

campaign-Later : (t : CampaignType) (r : Raft) → r.term + 1 < u64 → Ensures (Later r) (campaign t r)
unfolding campaign
campaign-Later campaign_election r h = campaign_real-Later r h
campaign-Later campaign_pre_election r h =
    Ensures-bind (become_pre_candidate r) _ (become_pre_candidate-Later r) λ s l.
      let polled = poll s.id true s in
      from_Later r polled.0 _ (Later-trans r s _ l.0 (Later-poll s.id true s)) (
        Ensures-if (nat_beq (quorum s) polled.1)
          (λ _. campaign_real-Later polled.0 (omega (arith, l.1)))
          (λ _. for_peers-Later _ _ (request_vote-Later (add64 s.term 1) msg_pre_vote) polled.0))

on_vote_resp-Later :
    (m : Message) (r : Raft) → r.term + 1 < u64 → Ensures (Later r) (on_vote_resp m r)
unfolding on_vote_resp
on_vote_resp-Later m r h =
    let polled = poll m.sender (not m.reject) r in
    from_Later r polled.0 _ (Later-poll m.sender (not m.reject) r) (
      Ensures-if (nat_beq (quorum polled.0) polled.1)
        (λ _.
          Ensures-if (state_beq polled.0.state state_pre_candidate)
            (λ _. campaign-Later campaign_election polled.0 h)
            (λ _.
              Ensures-bind (become_leader polled.0) _ (become_leader-Later polled.0)
                λ led l. from_Later polled.0 led _ l (broadcast_append-Later led)))
        (λ _.
          Ensures-if (nat_beq (quorum polled.0) (length polled.0.votes - polled.1))
            (λ _. Ensures-ok (Later-become_follower _ 0 polled.0 (omega arith)))
            (λ _. Ensures-ok (Later-refl polled.0))))

candidate_on-Later :
    (t : MessageType) (m : Message) (r : Raft)
    → r.term + 1 < u64
    → (t ≡ msg_heartbeat → r.term ≤ m.term)
    → Ensures (Later r) (candidate_on t m r)
unfolding candidate_on
candidate_on-Later msg_prop m r h k = Ensures-ok (Later-refl r)
candidate_on-Later msg_app m r h k =
    from_Later r _ _ (Later-become_follower r.term m.sender r (omega arith))
      (handle_append_entries-Later m _)
candidate_on-Later msg_heartbeat m r h k =
    from_Later r _ _ (Later-become_follower m.term m.sender r (k refl)) (handle_heartbeat-Later m _)
candidate_on-Later t m r h k =
    Ensures-if (type_beq t (vote_resp_type r.state)) (λ _. on_vote_resp-Later m r h)
      (λ _. Ensures-ok (Later-refl r))

pub run_step-Later :
    (f : StepFunc) (m : Message) (r : Raft)
    → r.term + 1 < u64
    → (m.type ≡ msg_heartbeat → r.term ≤ m.term)
    → Ensures (Later r) (run_step f m r)
unfolding run_step run_candidate
run_step-Later step_follower m r h k = run_follower-Later m r
run_step-Later step_candidate m r h k = candidate_on-Later m.type m r h k
run_step-Later step_leader m r h k = run_leader-Later m r

pub on_hup-Later : (r : Raft) → r.term + 1 < u64 → Ensures (Later r) (on_hup r)
unfolding on_hup
on_hup-Later r h =
    Ensures-if (state_beq r.state state_leader) (λ _. Ensures-ok (Later-refl r))
      λ _.
        Ensures-if (not (promotable r.id r)) (λ _. Ensures-ok (Later-refl r))
          λ _. Ensures-then (must (log_slice _ _ _)) _ λ es _.
            Ensures-if (ltb 0 (num_of_pending_conf es)) (λ _. Ensures-ok (Later-refl r))
              λ _.
                Ensures-if r.pre_vote (λ _. campaign-Later campaign_pre_election r h)
                  (λ _. campaign-Later campaign_election r h)

-- A vote is given only to a candidate of the voter's own term, and only if no other has it.
pub on_vote-Later :
    (m : Message) (r : Raft)
    → (type_beq m.type msg_vote ≡ true → m.term ≤ r.term)
    → Ensures (Later r) (on_vote m r)
unfolding on_vote
on_vote-Later m r h = Ensures-then (is_up_to_date r.raft_log m.log_index m.log_term) _ λ fresh _.
    Ensures-if (fresh && (nat_beq r.vote 0 || ltb r.term m.term || nat_beq m.sender r.vote))
      (λ e. Ensures-ok (ground arith))
      (λ _. Ensures-ok (Later-same r _ refl refl (omega arith) refl))
