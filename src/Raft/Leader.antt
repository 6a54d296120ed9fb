-- ===== src/Raft/Leader.antt =====
-- components/raft/raft/leader.go: replication, heartbeats and linearizable reads.
pub mod Reads
use yukino_go.Base.{
  ℕ, zero, ◌-◌, Bool, true, false, not, ◌||◌, Option, none, some, List, [], ◌∷◌, ◌++◌, min, length,
  ltb, leb, nat_beq, lookup, insert, nat_eq, sub64, if◌then◌else◌, ok, err, panic, ◌>>=◌, index,
  deref,
}
use yukino_go.Raft.Model.{
  Entry, EntryType, entry_normal, entry_conf_change, is_conf_change, Message, MessageType, blank,
  msg_beat, msg_prop, msg_app, msg_app_resp, msg_heartbeat, msg_heartbeat_resp, msg_read_index,
  msg_read_index_resp, state_leader,
}
use yukino_go.Raft.Progress.{Progress, maybe_update, may_decrease_to}
use yukino_go.Raft.Storage.{R, dummy}
use yukino_go.Raft.Log.{log_term, log_entries, last_index, zero_term_on_err_compacted}
use yukino_go.Raft.ReadOnly.{ReadState, ReadIndexStatus, add_request, recv_ack, advance}
use yukino_go.Raft.State.{Raft, reset, send, quorum, step_leader, tick_heartbeat}
use yukino_go.Raft.Quorum.{maybe_commit, append_entry}

-- `x, _ := f()`: the error is dropped, and `x` is the zero value.
abbrev pub ignore_err : {A : Type 0} → A → R A → R A
ignore_err zero_value (ok a) = ok a
ignore_err zero_value (err _) = ok zero_value
ignore_err zero_value panic = panic

unfoldable pub send_append : ℕ → Raft → R Raft
unfolding send
send_append to r = do
  pr ← deref (lookup to r.prs)
  term ← ignore_err 0 (log_term r.raft_log (sub64 pr.next 1))
  entries ← ignore_err [] (log_entries r.raft_log pr.next)
  ok (
      send
        (record blank {
          to = to;
          type = msg_app;
          log_term = term;
          log_index = sub64 pr.next 1;
          entries = entries;
          commit_index = r.raft_log.commit_index;
        })
        r)

unfoldable pub send_heartbeat : ℕ → List ℕ → Raft → R Raft
unfolding send
send_heartbeat id ctx r = do
  pr ← deref (lookup id r.prs)
  ok (
      send
        (record blank {
          to = id;
          type = msg_heartbeat;
          commit_index = min r.raft_log.commit_index pr.matched;
          context = ctx;
        })
        r)

-- `for id := range r.prs { if id == r.id { continue }; … }`
unfoldable pub for_peers : (ℕ → Raft → R Raft) → List (ℕ × Progress) → Raft → R Raft
for_peers body [] r = ok r
for_peers body ((id, _) ∷ rest) r = do
  r' ← if nat_beq id r.id then ok r else body id r
  for_peers body rest r'

unfoldable pub broadcast_append : Raft → R Raft
unfolding for_peers
broadcast_append r = for_peers send_append r.prs r

unfoldable pub broadcast_heartbeat_with_ctx : List ℕ → Raft → R Raft
unfolding for_peers
broadcast_heartbeat_with_ctx ctx r = for_peers (λ id. send_heartbeat id ctx) r.prs r

-- The loop over the proposed entries: at most one pending configuration change.
unfoldable pub mark_conf : Bool → List Entry → Bool × List Entry
mark_conf pending [] = (pending, [])
mark_conf pending (e ∷ es) =
    let conf = is_conf_change e.type in
    let rest = mark_conf (pending || conf) es in
    (rest.0, (if conf then (if pending then dummy else e) else e) ∷ rest.1)

-- The branch of `MsgProp` behind its two guards.
unfoldable pub propose : List Entry → Raft → R Raft
unfolding mark_conf
propose entries r = do
  let marked = mark_conf r.pending_conf entries
  r' ← append_entry marked.1 (record r { pending_conf = marked.0 })
  broadcast_append r'

abbrev pub request_ctx_of : Message → R (List ℕ)
request_ctx_of m = do e ← index m.entries 0; ok e.bytes

unfoldable pub read_index : Message → Raft → R Raft
read_index m r =
    if ltb 1 (length r.prs)
    then (do
      term ← zero_term_on_err_compacted (log_term r.raft_log r.raft_log.commit_index)
      if not (nat_beq term r.term) then ok r else (do
        ctx ← request_ctx_of m
        let res = add_request r.read_only ctx r.raft_log.commit_index m
        let r' = record r { read_only = res.0 }
        if res.1 then broadcast_heartbeat_with_ctx ctx r' else ok r'))
    else (do
      ctx ← request_ctx_of m
      ok (record r {
        read_states =
            r.read_states ++ record { index = r.raft_log.commit_index; request_ctx = ctx } ∷ [];
      }))

unfoldable pub on_app_resp : Message → Progress → Raft → R Raft
on_app_resp m pr r =
    if m.reject
    then (let res = may_decrease_to pr m.log_index m.reject_hint in
        let r' = record r { prs = insert m.sender res.0 r.prs } in
        if res.1 then send_append m.sender r' else ok r')
    else (let res = maybe_update pr m.log_index in
        let r' = record r { prs = insert m.sender res.0 r.prs } in
        if res.1
        then (do
          committed ← maybe_commit r'
          if committed.1 then broadcast_append committed.0 else ok committed.0)
        else ok r')

-- One round of the loop over the reads that `advance` has released.
unfoldable pub answer_read : ReadIndexStatus → Raft → R Raft
unfolding send
answer_read rs r =
    if nat_beq rs.req.sender 0 || nat_beq rs.req.sender r.id
    then (do
      ctx ← request_ctx_of rs.req
      ok (record r {
        read_states = r.read_states ++ record { index = rs.index; request_ctx = ctx } ∷ [];
      }))
    else ok (
        send
          (record blank {
            to = rs.req.sender;
            type = msg_read_index_resp;
            log_index = rs.index;
            entries = rs.req.entries;
          })
          r)

unfoldable pub answer_reads : List ReadIndexStatus → Raft → R Raft
unfolding answer_read
answer_reads [] r = ok r
answer_reads (rs ∷ rest) r = do r' ← answer_read rs r; answer_reads rest r'

unfoldable pub on_heartbeat_resp : Message → Raft → R Raft
unfolding answer_reads recv_ack
on_heartbeat_resp m r =
    if nat_beq (length r.read_only.read_index_queue) 0
    then ok r
    else (let acked = recv_ack r.read_only m.context m.sender in
        let r' = record r { read_only = acked.0 } in
        if ltb (length acked.1) (quorum r') then ok r' else (do
          released ← advance r'.read_only m.context
          answer_reads released.1 (record r' { read_only = released.0 })))

-- The second `switch`, for a message of a known peer.
unfoldable pub leader_on_peer : MessageType → Message → Progress → Raft → R Raft
unfolding on_app_resp on_heartbeat_resp
leader_on_peer msg_app_resp m pr r = on_app_resp m pr r
leader_on_peer msg_heartbeat_resp m pr r = on_heartbeat_resp m r
leader_on_peer _ m pr r = ok r

abbrev pub known_peer : Option Progress → Message → Raft → R Raft
known_peer none m r = ok r
known_peer (some pr) m r = leader_on_peer m.type m pr r

unfoldable pub leader_on : MessageType → Message → Raft → R Raft
unfolding propose read_index
leader_on msg_beat m r = broadcast_heartbeat_with_ctx [] r
leader_on msg_prop m r =
    if nat_beq (length m.entries) 0
    then panic
    else elim (lookup r.id r.prs) [ none ↦ ok r | some _ ↦ propose m.entries r ]
leader_on msg_read_index m r = elim (lookup r.id r.prs) [ none ↦ ok r | some _ ↦ read_index m r ]
leader_on _ m r = known_peer (lookup m.sender r.prs) m r

-- `stepLeader`
unfoldable pub run_leader : Message → Raft → R Raft
unfolding leader_on
run_leader m r = leader_on m.type m r
