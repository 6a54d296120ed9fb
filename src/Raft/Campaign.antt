-- ===== src/Raft/Campaign.antt =====
-- components/raft/raft/candidate.go, `becomeLeader` of leader.go, and `campaign` of raft.go:
-- elections.
pub mod Votes
use yukino_go.Base.{
  ℕ, zero, ◌-◌, Bool, true, false, not, Option, none, some, List, [], ◌∷◌, ◌++◌, length, nat_beq,
  lookup, nat_eq, add64, if◌then◌else◌, ok, panic, ◌>>=◌,
}
use yukino_go.Raft.Model.{
  MessageType, Message, blank, type_beq, msg_app, msg_heartbeat, msg_prop, msg_vote, msg_vote_resp,
  msg_pre_vote, msg_pre_vote_resp, StateType, state_beq, state_follower, state_candidate,
  state_leader, state_pre_candidate, CampaignType, campaign_pre_election, campaign_election,
}
use yukino_go.Raft.Progress.{Progress}
use yukino_go.Raft.Storage.{R, dummy}
use yukino_go.Raft.Log.{last_index, last_term}
use yukino_go.Raft.State.{
  Raft, reset, become_follower, send, quorum, poll, step_candidate, step_leader, tick_election,
  tick_heartbeat,
}
use yukino_go.Raft.Quorum.{append_entry}
use yukino_go.Raft.Follower.{handle_append_entries, handle_heartbeat}
use yukino_go.Raft.Leader.{for_peers, broadcast_append}

unfoldable pub become_pre_candidate : Raft → R Raft
become_pre_candidate r =
    if state_beq r.state state_leader
    then panic
    else ok (record r {
      step = step_candidate;
      tick = tick_election;
      votes = [];
      state = state_pre_candidate;
    })

unfoldable pub become_candidate : Raft → R Raft
unfolding reset
become_candidate r =
    if state_beq r.state state_leader
    then panic
    else let r' = reset (add64 r.term 1) (record r { step = step_candidate }) in
      ok (record r' { tick = tick_election; vote = r'.id; state = state_candidate })

-- The loop of `becomeLeader` over the peers.
unfoldable pub reset_progress : ℕ → ℕ → List (ℕ × Progress) → List (ℕ × Progress)
reset_progress self next [] = []
reset_progress self next ((id, pr) ∷ rest) =
    (id, (if nat_beq id self then pr else record { matched = 0; next = next }))
    ∷ reset_progress self next rest

unfoldable pub become_leader : Raft → R Raft
unfolding reset
become_leader r = if state_beq r.state state_follower then panic else (do
  let r' = reset r.term (record r { step = step_leader })
  let led = record r' { tick = tick_heartbeat; lead = r'.id; state = state_leader }
  last ← last_index led.raft_log
  append_entry (dummy ∷ []) (record led { prs = reset_progress led.id (add64 last 1) led.prs }))

unfoldable pub request_vote : ℕ → MessageType → ℕ → Raft → R Raft
unfolding send
request_vote term type id r = do
  lt ← last_term r.raft_log
  li ← last_index r.raft_log
  ok (send (record blank { term = term; to = id; type = type; log_term = lt; log_index = li }) r)

-- `campaign(campaignElection)`
unfoldable pub campaign_real : Raft → R Raft
unfolding become_candidate poll quorum
campaign_real r = do
  r' ← become_candidate r
  let polled = poll r'.id true r'
  if nat_beq (quorum r') polled.1
      then become_leader polled.0
      else for_peers (request_vote r'.term msg_vote) polled.0.prs polled.0

-- `campaign`; a pre-election that is won at once goes on with an election.
unfoldable pub campaign : CampaignType → Raft → R Raft
unfolding become_pre_candidate campaign_real
campaign campaign_election r = campaign_real r
campaign campaign_pre_election r = do
  r' ← become_pre_candidate r
  let polled = poll r'.id true r'
  if nat_beq (quorum r') polled.1
      then campaign_real polled.0
      else for_peers (request_vote (add64 r'.term 1) msg_pre_vote) polled.0.prs polled.0

-- The type of the answers that the current state counts.
abbrev pub vote_resp_type : StateType → MessageType
vote_resp_type state_pre_candidate = msg_pre_vote_resp
vote_resp_type _ = msg_vote_resp

unfoldable pub on_vote_resp : Message → Raft → R Raft
unfolding poll quorum campaign become_follower
on_vote_resp m r =
    let polled = poll m.sender (not m.reject) r in
    let r' = polled.0 in
    if nat_beq (quorum r') polled.1
    then (if state_beq r'.state state_pre_candidate
        then campaign campaign_election r'
        else (do led ← become_leader r'; broadcast_append led))
    else if nat_beq (quorum r') (length r'.votes - polled.1)
    then ok (become_follower r'.term 0 r')
    else ok r'

unfoldable pub candidate_on : MessageType → Message → Raft → R Raft
unfolding on_vote_resp
candidate_on msg_prop m r = ok r
candidate_on msg_app m r = handle_append_entries m (become_follower r.term m.sender r)
candidate_on msg_heartbeat m r = handle_heartbeat m (become_follower m.term m.sender r)
candidate_on type m r = if type_beq type (vote_resp_type r.state) then on_vote_resp m r else ok r

-- `stepCandidate`
unfoldable pub run_candidate : Message → Raft → R Raft
unfolding candidate_on
run_candidate m r = candidate_on m.type m r
