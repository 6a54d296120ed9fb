-- ===== src/Raft/Step.antt =====
-- components/raft/raft/raft.go: `newRaft`, `Step`, and the two tick functions.
pub mod Restart
use yukino_go.Base.{
  ℕ, zero, ◌+◌, Bool, true, false, not, ◌&&◌, ◌||◌, Option, none, some, List, [], ◌∷◌, length, ltb,
  leb, nat_beq, insert, nat_eq, add32, add64, le_s32, if◌then◌else◌, ok, ◌>>=◌, must,
}
use yukino_go.Raft.Model.{
  Message, MessageType, blank, type_beq, msg_hup, msg_beat, msg_app, msg_app_resp, msg_vote,
  msg_vote_resp, msg_heartbeat, msg_pre_vote, msg_pre_vote_resp, state_beq, state_leader,
  state_follower, campaign_pre_election, campaign_election, num_of_pending_conf,
}
use yukino_go.Raft.Progress.{Progress}
use yukino_go.Raft.Storage.{R, Storage}
use yukino_go.Raft.Log.{new_raft_log, applied_to, log_slice, is_up_to_date}
use yukino_go.Raft.ReadOnly.{new_read_only}
use yukino_go.Raft.State.{
  Raft, StepFunc, step_follower, step_candidate, step_leader, TickFunc, tick_election,
  tick_heartbeat, become_follower, send, promotable, past_election_timeout,
}
use yukino_go.Raft.Follower.{run_follower}
use yukino_go.Raft.Leader.{run_leader}
use yukino_go.Raft.Campaign.{campaign, run_candidate}

-- `Config`; `ElectionTick` and `HeartbeatTick` are int32.
pub record Config : Type 0 where
  pub id : ℕ
  pub peers : List ℕ
  pub storage : Storage
  pub applied : ℕ
  pub pre_vote : Bool
  pub election_tick : ℕ
  pub heartbeat_tick : ℕ

unfoldable pub initial_prs : List ℕ → List (ℕ × Progress) → List (ℕ × Progress)
initial_prs [] prs = prs
initial_prs (peer ∷ peers) prs =
    initial_prs peers (insert peer (record { matched = 0; next = 1 }) prs)

-- `newRaft`. `InitialState` of `MemoryStorage` has no nodes, so that an empty `peers` stays empty.
unfoldable pub new_raft : Config → (ℕ → ℕ) → R Raft
unfolding initial_prs become_follower new_raft_log applied_to
new_raft conf rand = do
  let hs = conf.storage.hard_state
  log ← new_raft_log conf.storage
  log' ← applied_to log conf.applied
  let log'' =
      if ltb log'.commit_index hs.commit_index
      then record log' { commit_index = hs.commit_index }
      else log'
  let term = if nat_beq hs.term 0 then 1 else hs.term
  ok (
      become_follower term 0 (record {
        id = conf.id;
        term = 0;
        read_states = [];
        raft_log = log'';
        prs = initial_prs conf.peers [];
        state = state_follower;
        votes = [];
        msgs = [];
        lead = 0;
        pending_conf = false;
        read_only = new_read_only;
        pre_vote = conf.pre_vote;
        tick = tick_election;
        step = step_follower;
        vote = 0;
        check_quorum = false;
        election_timeout = conf.election_tick;
        randomized_election_timeout = 0;
        election_elapsed = 0;
        heartbeat_timeout = conf.heartbeat_tick;
        heartbeat_elapsed = 0;
        rand = rand;
      }))

-- `r.step(r, m)`
unfoldable pub run_step : StepFunc → Message → Raft → R Raft
run_step step_follower m r = run_follower m r
run_step step_candidate m r = run_candidate m r
run_step step_leader m r = run_leader m r

-- The case `MsgHup`.
unfoldable pub on_hup : Raft → R Raft
unfolding promotable
on_hup r =
    if state_beq r.state state_leader then ok r else if not (promotable r.id r) then ok r else (do
      entries ←
          must (
            log_slice r.raft_log (add64 r.raft_log.apply_index 1) (add64 r.raft_log.commit_index 1))
      if ltb 0 (num_of_pending_conf entries)
          then ok r
          else if r.pre_vote
          then campaign campaign_pre_election r
          else campaign campaign_election r)

-- The case `MsgVote, MsgPreVote`.
unfoldable pub on_vote : Message → Raft → R Raft
unfolding send
on_vote m r = do
  fresh ← is_up_to_date r.raft_log m.log_index m.log_term
  let is_vote = type_beq m.type msg_vote
  if fresh && (nat_beq r.vote 0 || ltb r.term m.term || nat_beq m.sender r.vote)
      then ok (
          if is_vote
          then send (record blank { type = msg_vote_resp; to = m.sender })
              (record r { vote = m.sender })
          else send (record blank { type = msg_pre_vote_resp; to = m.sender }) r)
      else ok (
          send
            (record blank {
              type = if is_vote then msg_vote_resp else msg_pre_vote_resp;
              to = m.sender;
              reject = true;
            })
            r)

-- The second `switch` of `Step`.
unfoldable pub dispatch : MessageType → Message → Raft → R Raft
unfolding on_hup on_vote
dispatch msg_hup m r = on_hup r
dispatch msg_vote m r = on_vote m r
dispatch msg_pre_vote m r = on_vote m r
dispatch _ m r = run_step r.step m r

-- Whether a message of a higher term makes its receiver a follower of that term.
abbrev pub bumps_term : Message → Bool
bumps_term m =
    not (type_beq m.type msg_pre_vote) && (not (type_beq m.type msg_pre_vote_resp) || m.reject)

-- The first `switch` of `Step`, for a message that it lets pass.
unfoldable pub meet_term : Message → Raft → Raft
unfolding become_follower
meet_term m r =
    if nat_beq m.term 0
    then r
    else if ltb r.term m.term
    then (let lead =
          if type_beq m.type msg_vote || type_beq m.type msg_pre_vote then 0 else m.sender in
        if bumps_term m then become_follower m.term lead r else r)
    else r

-- A message of an earlier term: `m.Term != 0 && m.Term < r.Term`.
abbrev pub is_stale : Message → Raft → Bool
is_stale m r = not (nat_beq m.term 0) && ltb m.term r.term

-- `Step`; its error is always nil.
unfoldable pub step_raft : Message → Raft → R Raft
unfolding meet_term dispatch send
step_raft m r =
    if is_stale m r
    then ok (
        if r.check_quorum && (type_beq m.type msg_heartbeat || type_beq m.type msg_app)
        then send (record blank { to = m.sender; type = msg_app_resp }) r
        else r)
    else dispatch m.type m (meet_term m r)

unfoldable pub run_tick_election : Raft → R Raft
unfolding promotable past_election_timeout
run_tick_election r =
    let r' = record r { election_elapsed = add32 r.election_elapsed 1 } in
    if promotable r'.id r' && past_election_timeout r'
    then step_raft (record blank { sender = r'.id; type = msg_hup })
        (record r' { election_elapsed = 0 })
    else ok r'

unfoldable pub run_tick_heartbeat : Raft → R Raft
run_tick_heartbeat r =
    if not (state_beq r.state state_leader)
    then ok r
    else (let r' = record r { heartbeat_elapsed = add32 r.heartbeat_elapsed 1 } in
        if le_s32 r'.heartbeat_timeout r'.heartbeat_elapsed
        then step_raft (record blank { sender = r'.id; type = msg_beat })
            (record r' { heartbeat_elapsed = 0 })
        else ok r')

-- `r.tick()`
unfoldable pub run_tick : TickFunc → Raft → R Raft
unfolding run_tick_election run_tick_heartbeat
run_tick tick_election r = run_tick_election r
run_tick tick_heartbeat r = run_tick_heartbeat r
