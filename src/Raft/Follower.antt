-- ===== src/Raft/Follower.antt =====
-- components/raft/raft/follower.go: what a follower does with a message.
use yukino_go.Base.{true, none, some, ◌∷◌, ◌++◌, [], min, nat_beq, if◌then◌else◌, ok, ◌>>=◌, index}
use yukino_go.Raft.Model.{
  Message, MessageType, blank, msg_prop, msg_app, msg_heartbeat, msg_read_index,
  msg_read_index_resp, msg_app_resp, msg_heartbeat_resp,
}
use yukino_go.Raft.Storage.{R}
use yukino_go.Raft.Log.{last_index, commit_to, maybe_append}
use yukino_go.Raft.State.{Raft, send}

unfoldable pub handle_append_entries : Message → Raft → R Raft
unfolding send
handle_append_entries m r = do
  res ← maybe_append r.raft_log m.log_index m.log_term m.commit_index m.entries
  let r' = record r { raft_log = res.0 }
  elim res.1 [
    | some last ↦
        ok (send (record blank { to = m.sender; type = msg_app_resp; log_index = last }) r')
    | none ↦ do
      last ← last_index r'.raft_log
      ok (
          send
            (record blank {
              to = m.sender;
              type = msg_app_resp;
              log_index = m.log_index;
              reject = true;
              reject_hint = last;
            })
            r')
  ]

unfoldable pub handle_heartbeat : Message → Raft → R Raft
unfolding send
handle_heartbeat m r = do
  last ← last_index r.raft_log
  log ← commit_to r.raft_log (min m.commit_index last)
  ok (
      send (record blank { to = m.sender; type = msg_heartbeat_resp; context = m.context })
        (record r { raft_log = log }))

unfoldable pub forward : Message → Raft → Raft
unfolding send
forward m r = if nat_beq r.lead 0 then r else send (record m { to = r.lead }) r

unfoldable pub follower_on : MessageType → Message → Raft → R Raft
unfolding forward handle_append_entries handle_heartbeat
follower_on msg_prop m r = ok (forward m r)
follower_on msg_app m r =
    handle_append_entries m (record r { election_elapsed = 0; lead = m.sender })
follower_on msg_heartbeat m r =
    handle_heartbeat m (record r { election_elapsed = 0; lead = m.sender })
follower_on msg_read_index m r = ok (forward m r)
follower_on msg_read_index_resp m r = do
  e ← index m.entries 0
  ok (record r {
    read_states = r.read_states ++ record { index = m.log_index; request_ctx = e.bytes } ∷ [];
  })
follower_on _ m r = ok r

-- `stepFollower`
unfoldable pub run_follower : Message → Raft → R Raft
unfolding follower_on
run_follower m r = follower_on m.type m r
