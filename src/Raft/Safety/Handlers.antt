-- ===== src/Raft/Safety/Handlers.antt =====
-- Every handler respects `Later`.
use yukino_go.Base.{
  ℕ, ◌-◌, ◌≤◌, refl, arith, Bool, true, false, not, ◌||◌, Option, none, some, List, [], ◌∷◌, length,
  min, nat_beq, ltb, sub64, lookup, nat_eq, index, deref, Ensures, Ensures-ok, Ensures-panic,
  Ensures-if, Ensures-then, Ensures-bind, Ensures-weaken, Ensures-option, if◌then◌else◌, ok,
}
use yukino_go.Raft.Model.{Entry, Message, MessageType}
use yukino_go.Raft.Model.{
  msg_app, msg_heartbeat, msg_prop, msg_read_index, msg_read_index_resp, msg_beat, msg_app_resp,
  msg_heartbeat_resp,
}
use yukino_go.Raft.Progress.{Progress, maybe_update, may_decrease_to}
use yukino_go.Raft.Storage.{R}
use yukino_go.Raft.Log.{
  RaftLog, last_index, log_term, log_entries, commit_to, maybe_append, log_append, log_maybe_commit,
  zero_term_on_err_compacted,
}
use yukino_go.Raft.ReadOnly.{ReadIndexStatus, recv_ack, advance, add_request}
use yukino_go.Raft.State.{Raft, send, quorum}
use yukino_go.Raft.Quorum.{sort_desc, matches, maybe_commit, number_entries, append_entry}
use yukino_go.Raft.Follower.{
  handle_append_entries, handle_heartbeat, forward, follower_on, run_follower,
}
use yukino_go.Raft.Leader.{
  ignore_err, request_ctx_of, send_append, send_heartbeat, for_peers, broadcast_append,
  broadcast_heartbeat_with_ctx, propose, read_index, on_app_resp, answer_read, answer_reads,
  on_heartbeat_resp, leader_on_peer, known_peer, leader_on, run_leader,
}
use yukino_go.Raft.Safety.Later.{Later, Keeps, Later-refl, Later-trans, Later-same}
use yukino_go.Raft.Safety.LogCommit.{
  commit-commit_to, commit-log_append, commit-maybe_append, commit-log_maybe_commit,
}

-- To go on from a state that is later than `r`.
pub from_Later : (r s : Raft) (m : R Raft) → Later r s → Ensures (Later s) m → Ensures (Later r) m
from_Later r s m h k = Ensures-weaken k (λ t. Later-trans r s t h)

pub Later-send : (m : Message) (r : Raft) → Later r (send m r)
unfolding send
Later-send m r = Later-same r _ refl refl (omega arith) refl

Later-raft_log :
    (r : Raft) (l : RaftLog)
    → r.raft_log.commit_index ≤ l.commit_index
    → Later r (record r { raft_log = l })
Later-raft_log r l h = Later-same r _ refl refl h refl

Later-if : (b : Bool) (r s : Raft) → Later r s → Later r (if b then r else s)
Later-if true r s h = Later-refl r
Later-if false r s h = h

pub handle_append_entries-Later : (m : Message) → Keeps (handle_append_entries m)
unfolding handle_append_entries
handle_append_entries-Later m r =
    Ensures-bind (maybe_append r.raft_log m.log_index m.log_term m.commit_index m.entries) _
      (commit-maybe_append r.raft_log m.log_index m.log_term m.commit_index m.entries)
      λ res h.
        Ensures-option res.1
          (Ensures-then (last_index res.0) _ λ last _. Ensures-ok (Later-same r _ refl refl h refl))
          (λ last _. Ensures-ok (Later-same r _ refl refl h refl))

pub handle_heartbeat-Later : (m : Message) → Keeps (handle_heartbeat m)
unfolding handle_heartbeat
handle_heartbeat-Later m r = Ensures-then (last_index r.raft_log) _ λ last _.
    Ensures-bind (commit_to r.raft_log (min m.commit_index last)) _
      (commit-commit_to r.raft_log (min m.commit_index last))
      λ l h. Ensures-ok (Later-same r _ refl refl h refl)

Later-forward : (m : Message) (r : Raft) → Later r (forward m r)
unfolding forward
Later-forward m r = Later-if (nat_beq r.lead 0) r _ (Later-same r _ refl refl (omega arith) refl)

pub follower_on-Later : (t : MessageType) (m : Message) → Keeps (follower_on t m)
unfolding follower_on
follower_on-Later msg_prop m r = Ensures-ok (Later-forward m r)
follower_on-Later msg_app m r =
    from_Later r _ _ (Later-same r _ refl refl (omega arith) refl) (handle_append_entries-Later m _)
follower_on-Later msg_heartbeat m r =
    from_Later r _ _ (Later-same r _ refl refl (omega arith) refl) (handle_heartbeat-Later m _)
follower_on-Later msg_read_index m r = Ensures-ok (Later-forward m r)
follower_on-Later msg_read_index_resp m r =
    Ensures-then (index m.entries 0) _
      λ e _. Ensures-ok (Later-same r _ refl refl (omega arith) refl)
follower_on-Later _ m r = Ensures-ok (Later-refl r)

pub run_follower-Later : (m : Message) → Keeps (run_follower m)
unfolding run_follower
run_follower-Later m r = follower_on-Later m.type m r

pub maybe_commit-Later : (r : Raft) → Ensures (λ res. Later r res.0) (maybe_commit r)
unfolding maybe_commit
maybe_commit-Later r = Ensures-then (index (sort_desc (matches r.prs)) (quorum r - 1)) _ λ mid _.
    Ensures-bind (log_maybe_commit r.raft_log mid r.term) _
      (commit-log_maybe_commit r.raft_log mid r.term) λ res h. Ensures-ok (Later-raft_log r res.0 h)

pub append_entry-Later : (es : List Entry) → Keeps (append_entry es)
unfolding append_entry
append_entry-Later es r = Ensures-then (last_index r.raft_log) _ λ last _.
    Ensures-bind (log_append r.raft_log (number_entries r.term last 0 es)) _
      (commit-log_append r.raft_log (number_entries r.term last 0 es))
      λ log e. Ensures-then (deref (lookup r.id r.prs)) _ λ pr _.
        Ensures-then (last_index log) _ λ last' _.
          Ensures-bind (maybe_commit _) _ (maybe_commit-Later _)
            λ res h. Ensures-ok (Later-trans r _ _ (Later-same r _ refl refl (omega arith) refl) h)

pub for_peers-Later :
    (body : ℕ → Raft → R Raft) (l : List (ℕ × Progress))
    → ((id : ℕ) → Keeps (body id))
    → Keeps (for_peers body l)
unfolding for_peers
for_peers-Later body [] h r = Ensures-ok (Later-refl r)
for_peers-Later body ((id, pr) ∷ rest) h r =
    Ensures-bind (if nat_beq id r.id then ok r else body id r) _
      (Ensures-if (nat_beq id r.id) (λ _. Ensures-ok (Later-refl r)) (λ _. h id r))
      λ r' l. from_Later r r' _ l (for_peers-Later body rest h r')

pub send_append-Later : (to : ℕ) → Keeps (send_append to)
unfolding send_append
send_append-Later to r = Ensures-then (deref (lookup to r.prs)) _ λ pr _.
    Ensures-then (ignore_err 0 (log_term r.raft_log (sub64 pr.next 1))) _ λ t _.
      Ensures-then (ignore_err [] (log_entries r.raft_log pr.next)) _
        λ es _. Ensures-ok (Later-same r _ refl refl (omega arith) refl)

pub broadcast_append-Later : Keeps broadcast_append
unfolding broadcast_append
broadcast_append-Later r = for_peers-Later _ _ send_append-Later r

pub broadcast_heartbeat_with_ctx-Later : (ctx : List ℕ) → Keeps (broadcast_heartbeat_with_ctx ctx)
unfolding broadcast_heartbeat_with_ctx send_heartbeat
broadcast_heartbeat_with_ctx-Later ctx r =
    for_peers-Later _ _
      (λ id s.
        Ensures-then (deref (lookup id s.prs)) _
          λ pr _. Ensures-ok (Later-same s _ refl refl (omega arith) refl))
      r

pub propose-Later : (es : List Entry) → Keeps (propose es)
unfolding propose
propose-Later es r =
    Ensures-bind (append_entry _ _) _
      (from_Later r _ _ (Later-same r _ refl refl (omega arith) refl) (append_entry-Later _ _))
      λ r' h. from_Later r r' _ h (broadcast_append-Later r')

pub read_index-Later : (m : Message) → Keeps (read_index m)
unfolding read_index
read_index-Later m r =
    Ensures-if (ltb 1 (length r.prs))
      (λ _.
        Ensures-then (zero_term_on_err_compacted (log_term r.raft_log r.raft_log.commit_index)) _
          λ t _.
            Ensures-if (not (nat_beq t r.term)) (λ _. Ensures-ok (Later-refl r))
              λ _. Ensures-then (request_ctx_of m) _ λ ctx _.
                Ensures-if (add_request r.read_only ctx r.raft_log.commit_index m).1
                  (λ _.
                    from_Later r _ _ (Later-same r _ refl refl (omega arith) refl)
                      (broadcast_heartbeat_with_ctx-Later ctx _))
                  (λ _. Ensures-ok (Later-same r _ refl refl (omega arith) refl)))
      (λ _.
        Ensures-then (request_ctx_of m) _
          λ ctx _. Ensures-ok (Later-same r _ refl refl (omega arith) refl))

pub on_app_resp-Later : (m : Message) (pr : Progress) → Keeps (on_app_resp m pr)
unfolding on_app_resp
on_app_resp-Later m pr r =
    Ensures-if m.reject
      (λ _.
        Ensures-if (may_decrease_to pr m.log_index m.reject_hint).1
          (λ _.
            from_Later r _ _ (Later-same r _ refl refl (omega arith) refl) (send_append-Later _ _))
          (λ _. Ensures-ok (Later-same r _ refl refl (omega arith) refl)))
      (λ _.
        Ensures-if (maybe_update pr m.log_index).1
          (λ _. Ensures-bind (maybe_commit _) _ (maybe_commit-Later _) λ res h.
            let l : Later r res.0 =
              Later-trans r _ _ (Later-same r _ refl refl (omega arith) refl) h in
            Ensures-if res.1 (λ _. from_Later r _ _ l (broadcast_append-Later _))
              (λ _. Ensures-ok l))
          (λ _. Ensures-ok (Later-same r _ refl refl (omega arith) refl)))

pub answer_reads-Later : (l : List ReadIndexStatus) → Keeps (answer_reads l)
unfolding answer_reads
answer_reads-Later [] r = Ensures-ok (Later-refl r)
answer_reads-Later (rs ∷ rest) r =
    Ensures-bind (answer_read rs r) _
      (Ensures-if (nat_beq rs.req.sender 0 || nat_beq rs.req.sender r.id)
        (λ _.
          Ensures-then (request_ctx_of rs.req) _
            λ ctx _. Ensures-ok (Later-same r _ refl refl (omega arith) refl))
        (λ _. Ensures-ok (Later-same r _ refl refl (omega arith) refl)))
      λ r' h. from_Later r r' _ h (answer_reads-Later rest r')

pub on_heartbeat_resp-Later : (m : Message) → Keeps (on_heartbeat_resp m)
unfolding on_heartbeat_resp
on_heartbeat_resp-Later m r =
    Ensures-if (nat_beq (length r.read_only.read_index_queue) 0) (λ _. Ensures-ok (Later-refl r))
      (λ _.
        Ensures-if
          (ltb (length (recv_ack r.read_only m.context m.sender).1)
            (quorum (record r { read_only = (recv_ack r.read_only m.context m.sender).0 })))
          (λ _. Ensures-ok (Later-same r _ refl refl (omega arith) refl))
          (λ _. Ensures-then (advance _ m.context) _ λ released _.
            from_Later r _ _ (Later-same r _ refl refl (omega arith) refl)
              (answer_reads-Later released.1 _)))

pub leader_on_peer-Later :
    (t : MessageType) (m : Message) (pr : Progress) → Keeps (leader_on_peer t m pr)
unfolding leader_on_peer
leader_on_peer-Later msg_app_resp m pr r = on_app_resp-Later m pr r
leader_on_peer-Later msg_heartbeat_resp m pr r = on_heartbeat_resp-Later m r
leader_on_peer-Later _ m pr r = Ensures-ok (Later-refl r)

known_peer-Later : (o : Option Progress) (m : Message) → Keeps (known_peer o m)
known_peer-Later none m r = Ensures-ok (Later-refl r)
known_peer-Later (some pr) m r = leader_on_peer-Later m.type m pr r

pub leader_on-Later : (t : MessageType) (m : Message) → Keeps (leader_on t m)
unfolding leader_on
leader_on-Later msg_beat m r = broadcast_heartbeat_with_ctx-Later [] r
leader_on-Later msg_prop m r =
    Ensures-if (nat_beq (length m.entries) 0) (λ _. Ensures-panic)
      λ _.
        Ensures-option (lookup r.id r.prs) (Ensures-ok (Later-refl r))
          (λ _ _. propose-Later m.entries r)
leader_on-Later msg_read_index m r =
    Ensures-option (lookup r.id r.prs) (Ensures-ok (Later-refl r)) (λ _ _. read_index-Later m r)
leader_on-Later _ m r = known_peer-Later (lookup m.sender r.prs) m r

pub run_leader-Later : (m : Message) → Keeps (run_leader m)
unfolding run_leader
run_leader-Later m r = leader_on-Later m.type m r
