-- ===== src/Raft/Tests.antt =====
-- Runs of the raft library on small clusters, and the theorems at concrete inputs.
use yukino_go.Base.{
  ℕ, ◌+◌, ◌≡◌, refl, arith, true, false, some, List, [], ◌∷◌, map, ok, err, panic, ◌>>=◌, Ensures,
  length, Bool-cases, bytes_beq, inl, inr, nat_eq, bytes_eq,
}
use yukino_go.Raft.Model.{
  Entry, Message, MessageType, StateType, HardState, blank, entry_normal, msg_hup, msg_prop,
  msg_app_resp, msg_vote, msg_vote_resp, msg_app, msg_pre_vote, msg_heartbeat, msg_heartbeat_resp,
  state_leader, state_candidate, state_follower, campaign_pre_election, campaign_election,
  empty_hard_state, num_of_pending_conf,
}
use yukino_go.Raft.Progress.{Progress, may_decrease_to, maybe_update}
use yukino_go.Raft.Progress.Probe.{Probed, may_decrease_to-Probed}
use yukino_go.Raft.Storage.{R, dummy, new_memory_storage}
use yukino_go.Raft.Log.{RaftLog, maybe_append, log_maybe_commit}
use yukino_go.Raft.Log.View.{view, IsValid, term_at}
use yukino_go.Raft.Log.Agree.{agree}
use yukino_go.Raft.Log.Placing.{IsMessage}
use yukino_go.Raft.Log.Receive.{Received, maybe_append-Received, IsDecided, maybe_append-IsDecided}
use yukino_go.Raft.ReadOnly.{ReadOnly, ReadIndexStatus, new_read_only, add_request, advance}
use yukino_go.Raft.ReadOnly.Queue.{IsConsistent, Advanced, released, advance-Advanced}
use yukino_go.Raft.State.{Raft, step_follower, step_candidate, tick_election, quorum, poll}
use yukino_go.Raft.Quorum.{maybe_commit, sort_desc}
use yukino_go.Raft.Quorum.Commit.{Committed, maybe_commit-Committed}
use yukino_go.Raft.Leader.{on_heartbeat_resp}
use yukino_go.Raft.Leader.Reads.{AllFrom, heartbeat_resps, on_heartbeat_resp-waits}
use yukino_go.Raft.Campaign.{campaign, on_vote_resp}
use yukino_go.Raft.Campaign.Votes.{
  Counting, starts, counts, granters, HasAsked, leader_needs_quorum, pre_vote_terms,
}
use yukino_go.Raft.Step.{Config, new_raft, step_raft, run_tick}
use yukino_go.Raft.Step.Restart.{Restarted, new_raft-Restarted}
use yukino_go.Raft.Safety.Later.{Later}
use yukino_go.Raft.Safety.Steps.{step_raft-Later, run_tick-Later}
use yukino_go.Raft.Node.{Loop, on_advance, empty_ready}
use yukino_go.Raft.Node.Persist.{Persisted, IsSaving, on_advance-Persisted}

-- Every function of the library, for runs.
all_code : Unit {0}
unfolding yukino_go.Raft.Model.is_conf_change yukino_go.Raft.Model.num_of_pending_conf
    yukino_go.Raft.Progress.maybe_update yukino_go.Raft.Progress.may_decrease_to
    yukino_go.Raft.Storage.offset_of yukino_go.Raft.Storage.storage_last_index
    yukino_go.Raft.Storage.storage_first_index yukino_go.Raft.Storage.storage_entries
    yukino_go.Raft.Storage.storage_term yukino_go.Raft.Storage.storage_append
    yukino_go.Raft.Storage.set_hard_state yukino_go.Raft.Unstable.unstable_slice
    yukino_go.Raft.Unstable.truncate_and_append yukino_go.Raft.Unstable.maybe_last_index
    yukino_go.Raft.Unstable.maybe_term yukino_go.Raft.Unstable.unstable_stable_to
    yukino_go.Raft.Log.first_index yukino_go.Raft.Log.last_index yukino_go.Raft.Log.new_raft_log
    yukino_go.Raft.Log.stable_to yukino_go.Raft.Log.slice_checked yukino_go.Raft.Log.log_slice
    yukino_go.Raft.Log.next_entries yukino_go.Raft.Log.log_append yukino_go.Raft.Log.log_term
    yukino_go.Raft.Log.last_term yukino_go.Raft.Log.is_up_to_date yukino_go.Raft.Log.applied_to
    yukino_go.Raft.Log.log_entries yukino_go.Raft.Log.commit_to yukino_go.Raft.Log.log_maybe_commit
    yukino_go.Raft.Log.match_term yukino_go.Raft.Log.find_conflict yukino_go.Raft.Log.append_from
    yukino_go.Raft.Log.maybe_append yukino_go.Raft.ReadOnly.add_request
    yukino_go.Raft.ReadOnly.recv_ack yukino_go.Raft.ReadOnly.advance_loop
    yukino_go.Raft.ReadOnly.delete_all yukino_go.Raft.ReadOnly.advance
    yukino_go.Raft.State.reset_randomized_election_timeout yukino_go.Raft.State.reset
    yukino_go.Raft.State.become_follower yukino_go.Raft.State.send yukino_go.Raft.State.promotable
    yukino_go.Raft.State.past_election_timeout yukino_go.Raft.State.quorum yukino_go.Raft.State.poll
    yukino_go.Raft.State.add_node yukino_go.Raft.State.remove_node yukino_go.Raft.State.nodes
    yukino_go.Raft.State.change_members yukino_go.Raft.State.apply_conf_change
    yukino_go.Raft.Quorum.insert_desc yukino_go.Raft.Quorum.sort_desc
    yukino_go.Raft.Quorum.maybe_commit yukino_go.Raft.Quorum.number_entries
    yukino_go.Raft.Quorum.append_entry yukino_go.Raft.Follower.handle_append_entries
    yukino_go.Raft.Follower.handle_heartbeat yukino_go.Raft.Follower.forward
    yukino_go.Raft.Follower.follower_on yukino_go.Raft.Follower.run_follower
    yukino_go.Raft.Leader.send_append yukino_go.Raft.Leader.send_heartbeat
    yukino_go.Raft.Leader.for_peers yukino_go.Raft.Leader.broadcast_append
    yukino_go.Raft.Leader.broadcast_heartbeat_with_ctx yukino_go.Raft.Leader.mark_conf
    yukino_go.Raft.Leader.propose yukino_go.Raft.Leader.read_index yukino_go.Raft.Leader.on_app_resp
    yukino_go.Raft.Leader.answer_read yukino_go.Raft.Leader.answer_reads
    yukino_go.Raft.Leader.on_heartbeat_resp yukino_go.Raft.Leader.leader_on_peer
    yukino_go.Raft.Leader.leader_on yukino_go.Raft.Leader.run_leader
    yukino_go.Raft.Campaign.become_pre_candidate yukino_go.Raft.Campaign.become_candidate
    yukino_go.Raft.Campaign.reset_progress yukino_go.Raft.Campaign.become_leader
    yukino_go.Raft.Campaign.request_vote yukino_go.Raft.Campaign.campaign_real
    yukino_go.Raft.Campaign.campaign yukino_go.Raft.Campaign.on_vote_resp
    yukino_go.Raft.Campaign.candidate_on yukino_go.Raft.Campaign.run_candidate
    yukino_go.Raft.Step.initial_prs yukino_go.Raft.Step.new_raft yukino_go.Raft.Step.run_step
    yukino_go.Raft.Step.on_hup yukino_go.Raft.Step.on_vote yukino_go.Raft.Step.dispatch
    yukino_go.Raft.Step.meet_term yukino_go.Raft.Step.step_raft
    yukino_go.Raft.Step.run_tick_election yukino_go.Raft.Step.run_tick_heartbeat
    yukino_go.Raft.Step.run_tick yukino_go.Raft.Node.new_ready yukino_go.Raft.Node.contains_updates
    yukino_go.Raft.Node.add_peers yukino_go.Raft.Node.start_node yukino_go.Raft.Node.offer
    yukino_go.Raft.Node.note_last yukino_go.Raft.Node.on_ready yukino_go.Raft.Node.on_advance
    yukino_go.Raft.Node.on_event yukino_go.Raft.Node.round yukino_go.Raft.Log.View.view
    yukino_go.Raft.Log.View.term_at yukino_go.Raft.Log.Agree.agree
all_code = tt

abbrev entry : ℕ → ℕ → Entry
entry i t = record { term = t; index = i; type = entry_normal; bytes = i ∷ [] }

-- Entries 1 and 2 of term 1 in the unstable part; 1 is committed.
abbrev two_entries : RaftLog
two_entries = record {
  storage = new_memory_storage;
  unstable = record { entries = entry 1 1 ∷ entry 2 1 ∷ []; offset = 1 };
  commit_index = 1;
  apply_index = 0;
}

two_entries-IsValid : IsValid two_entries
two_entries-IsValid = omega arith

-- Entries 2 and 3 of term 2, behind entry 1 of term 1: entry 2 conflicts.
abbrev newer : List Entry
newer = entry 2 2 ∷ entry 3 2 ∷ []

newer-IsMessage : IsMessage two_entries 1 newer
newer-IsMessage = omega arith

maybe_append_run :
    maybe_append two_entries 1 1 3 newer
    ≡ ok (
      record {
        storage = new_memory_storage;
        unstable = record { entries = entry 1 1 ∷ entry 2 2 ∷ entry 3 2 ∷ []; offset = 1 };
        commit_index = 3;
        apply_index = 0;
      },
      some 3,
    )
unfolding all_code
maybe_append_run = refl

maybe_append-Received_example :
    (l' : RaftLog) × (maybe_append two_entries 1 1 3 newer ≡ ok (l', some 3))
    × Received two_entries l' 1 3 newer
unfolding term_at view
maybe_append-Received_example =
    maybe_append-Received two_entries 1 1 3 newer two_entries-IsValid newer-IsMessage refl
      (λ h. omega arith)

abbrev committed_two : RaftLog
committed_two = record two_entries { commit_index = 2 }

committed_panic : maybe_append committed_two 1 1 3 newer ≡ panic
unfolding all_code
committed_panic = refl

maybe_append-IsDecided_example : IsDecided committed_two 1 1 3 newer
maybe_append-IsDecided_example =
    maybe_append-IsDecided committed_two 1 1 3 newer (omega arith) (omega arith)

abbrev three : Config
three = record {
  id = 1;
  peers = 1 ∷ 2 ∷ 3 ∷ [];
  storage = record new_memory_storage {
    hard_state = record { term = 4; vote = 3; commit_index = 0 };
  };
  applied = 0;
  pre_vote = false;
  election_tick = 10;
  heartbeat_tick = 1;
}

new_raft-Restarted_example : Ensures (Restarted three) (new_raft three (λ _. 3))
new_raft-Restarted_example = new_raft-Restarted three (λ _. 3)

abbrev steps : List Message → Raft → R Raft
steps [] r = ok r
steps (m ∷ ms) r = do r' ← step_raft m r; steps ms r'

abbrev vote_of : ℕ → ℕ → Message
vote_of from term = record blank { type = msg_vote_resp; sender = from; term = term }

abbrev hup : Message
hup = record blank { type = msg_hup; sender = 1 }

abbrev elected : R Raft
elected = do r ← new_raft three (λ _. 3); steps (hup ∷ vote_of 2 5 ∷ []) r

abbrev outcome : R Raft → R (StateType × ℕ × ℕ × List (MessageType × ℕ × ℕ))
outcome m = do
  r ← m
  ok (
    r.state,
    r.term,
    r.raft_log.commit_index,
    map (λ (x : Message). (x.type, x.to, x.log_index)) r.msgs,
  )

elected_run :
    outcome elected
    ≡ ok (
      state_leader,
      5,
      0,
      (msg_vote, 2, 0) ∷ (msg_vote, 3, 0) ∷ (msg_app, 2, 0) ∷ (msg_app, 3, 0) ∷ [],
    )
unfolding all_code
elected_run = refl

-- The first acknowledgement of the new leader's empty entry commits it.
acknowledged_run :
    outcome (do
      r ← elected
      steps (record blank { type = msg_app_resp; sender = 3; term = 5; log_index = 1 } ∷ []) r)
    ≡ ok (
      state_leader,
      5,
      1,
      (msg_vote, 2, 0)
          ∷ (msg_vote, 3, 0)
          ∷ (msg_app, 2, 0)
          ∷ (msg_app, 3, 0)
          ∷ (msg_app, 2, 0)
          ∷ (msg_app, 3, 1)
          ∷ [],
    )
unfolding all_code
acknowledged_run = refl

abbrev peer : ℕ → Progress
peer n = record { matched = n; next = n + 1 }

-- A follower of three members in term 2, with the log above.
abbrev follower : Raft
follower = record {
  id = 1;
  term = 2;
  read_states = [];
  raft_log = two_entries;
  prs = (1, peer 2) ∷ (2, peer 2) ∷ (3, peer 0) ∷ [];
  state = state_follower;
  votes = [];
  msgs = [];
  lead = 0;
  pending_conf = false;
  read_only = new_read_only;
  pre_vote = false;
  tick = tick_election;
  step = step_follower;
  vote = 0;
  check_quorum = false;
  election_timeout = 10;
  randomized_election_timeout = 12;
  election_elapsed = 11;
  heartbeat_timeout = 1;
  heartbeat_elapsed = 0;
  rand = λ _. 3;
}

step_raft-Later_example : Ensures (Later follower) (step_raft hup follower)
step_raft-Later_example = step_raft-Later hup follower (omega arith) (omega arith) (λ e. cc)

run_tick-Later_example : Ensures (Later follower) (run_tick tick_election follower)
run_tick-Later_example = run_tick-Later tick_election follower (omega arith)

-- A leader of term 1: entry 2 is on two of three members.
abbrev committing : Raft
committing = record follower { term = 1 }

maybe_commit-Committed_example :
    Committed committing (record committing { raft_log = record two_entries { commit_index = 2 } })
unfolding all_code
maybe_commit-Committed_example =
    maybe_commit-Committed committing
      (record committing { raft_log = record two_entries { commit_index = 2 } }) refl

abbrev or_else : R Raft → Raft → Raft
or_else (ok r) d = r
or_else (err e) d = d
or_else panic d = d

abbrev voted_for : Raft
voted_for = record follower {
  state = state_candidate;
  step = step_candidate;
  votes = (1, true) ∷ [];
  vote = 1;
}

-- Node 3 refuses, and then node 2 grants.
abbrev refusal : Message
refusal = record (vote_of 3 2) { reject = true }

abbrev refused : Raft
refused = record voted_for { votes = (1, true) ∷ (3, false) ∷ [] }

abbrev won : Raft
won = or_else (on_vote_resp (vote_of 2 2) refused) refused

refused-Counting : Counting 1 (refusal ∷ []) refused
unfolding all_code
refused-Counting = counts [] refusal voted_for refused (starts voted_for refl) (λ e. cc) refl refl

leader_needs_quorum_example : length (granters 1 (vote_of 2 2 ∷ refusal ∷ [])) ≡ quorum refused
unfolding all_code
leader_needs_quorum_example =
    leader_needs_quorum 1 (refusal ∷ []) (vote_of 2 2) refused won refused-Counting refl refl refl

pre_vote_terms_example :
    (r' : Raft) × (campaign campaign_pre_election follower ≡ ok r')
    × HasAsked (2 ∷ 3 ∷ []) follower r'
unfolding quorum
pre_vote_terms_example = pre_vote_terms follower (omega arith) refl two_entries-IsValid

-- A candidate of term 2 falls back to term 0.
abbrev beat_without_term : Message
beat_without_term = record blank { type = msg_heartbeat; sender = 3 }

term_lost : (step_raft beat_without_term voted_for >>= λ r. ok r.term) ≡ ok 0
unfolding all_code
term_lost = refl

may_decrease_to-Probed_example : Probed (peer 6) (record (peer 6) { next = 3 }) 6 2
unfolding may_decrease_to
may_decrease_to-Probed_example =
    may_decrease_to-Probed (peer 6) (record (peer 6) { next = 3 }) 6 2 (omega arith) (omega arith)
      (omega arith) (omega arith) refl

abbrev read_of : ℕ → Message
read_of c = record blank { entries = entry c 0 ∷ [] }

abbrev pending : ℕ → ReadIndexStatus
pending c = record { req = read_of c; index = 1; acks = [] }

abbrev reads : ReadOnly
reads = record {
  pending_read_index = (7 ∷ [], pending 7) ∷ (8 ∷ [], pending 8) ∷ (9 ∷ [], pending 9) ∷ [];
  read_index_queue = (7 ∷ []) ∷ (8 ∷ []) ∷ (9 ∷ []) ∷ [];
}

reads-IsConsistent : IsConsistent reads
reads-IsConsistent = record {
  stored = ((pending 7, refl, refl), ((pending 8, refl, refl), ((pending 9, refl, refl), tt)));
  distinct = (((λ e. cc), ((λ e. cc), tt)), (((λ e. cc), tt), (tt, tt)));
}

advance-Advanced_example :
    Advanced reads
      (advance reads (8 ∷ []))
      (released (8 ∷ []) ((7 ∷ []) ∷ (8 ∷ []) ∷ (9 ∷ []) ∷ []))
advance-Advanced_example = advance-Advanced reads (8 ∷ []) reads-IsConsistent

-- Two members, and a read that waits.
abbrev pair : Raft
pair = record follower { prs = (1, peer 2) ∷ (2, peer 2) ∷ []; read_only = reads }

abbrev ack : Message
ack = record blank { type = msg_heartbeat_resp; sender = 2; context = 8 ∷ [] }

reads-AllFrom : AllFrom 2 reads
reads-AllFrom ctx = elim (Bool-cases (bytes_beq (7 ∷ []) ctx)) [
  | inl e ↦ rw e tt
  | inr e ↦ elim (Bool-cases (bytes_beq (8 ∷ []) ctx)) [
    | inl f ↦ rw (e, f) tt
    | inr f ↦ elim (Bool-cases (bytes_beq (9 ∷ []) ctx)) [
      | inl g ↦ rw (e, f, g) tt
      | inr g ↦ rw (e, f, g) tt
    ]
  ]
]

on_heartbeat_resp-waits_example :
    (ro : ReadOnly) × (heartbeat_resps (ack ∷ ack ∷ []) pair ≡ ok (record pair { read_only = ro }))
    × (ro.read_index_queue ≡ reads.read_index_queue)
    × AllFrom 2 ro
on_heartbeat_resp-waits_example =
    on_heartbeat_resp-waits 2 (ack ∷ ack ∷ []) pair (refl, (refl, tt)) (omega arith) reads-AllFrom

-- Entry 3 came after the `Ready`.
abbrev three_entries : RaftLog
three_entries = record two_entries {
  unstable = record { entries = entry 1 1 ∷ entry 2 1 ∷ entry 3 2 ∷ []; offset = 1 };
}

abbrev saving : Loop
saving = record {
  raft = record follower { raft_log = three_entries };
  prev_soft = record { lead = 0; raft_state = state_follower };
  prev_hard = record { term = 2; vote = 0; commit_index = 1 };
  rd = record empty_ready { entries = entry 1 1 ∷ entry 2 1 ∷ [] };
  advancing = true;
  last_i = 2;
  last_t = 1;
  has_last = true;
}

saving-IsSaving : IsSaving saving (entry 1 1) (entry 2 1 ∷ []) (entry 3 2 ∷ [])
saving-IsSaving = record {
  valid = omega arith;
  tail = refl;
  offered = refl;
  noted_i = refl;
  noted_t = refl;
  noted = refl;
  hard_pos = omega arith;
  hard_le = omega arith;
  hard_ge = omega arith;
}

on_advance-Persisted_example :
    (s' : Loop) × (on_advance saving ≡ ok s')
    × Persisted three_entries s'.raft.raft_log (entry 3 2 ∷ []) 1
    × (s'.advancing ≡ false)
on_advance-Persisted_example =
    on_advance-Persisted saving (entry 1 1) (entry 2 1 ∷ []) (entry 3 2 ∷ []) saving-IsSaving
