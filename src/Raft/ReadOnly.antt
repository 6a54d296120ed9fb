-- ===== src/Raft/ReadOnly.antt =====
-- components/raft/raft/read.go: pending linearizable reads, in the order of arrival.
pub mod Queue
use yukino_go.Base.{
  ℕ, suc, Bool, true, false, ◌&&◌, Option, none, some, List, [], ◌∷◌, ◌++◌, drop, lookup, insert,
  delete, bytes_beq, nat_eq, bytes_eq, if◌then◌else◌, ok, panic, ◌>>=◌, index, deref,
}
use yukino_go.Raft.Model.{Message}
use yukino_go.Raft.Storage.{R}

pub record ReadState : Type 0 where
  pub index : ℕ
  pub request_ctx : List ℕ

-- `acks` is a set of node ids: `map[uint64]struct{}`.
pub record ReadIndexStatus : Type 0 where
  pub req : Message
  pub index : ℕ
  pub acks : List (ℕ × Unit {0})

pub record ReadOnly : Type 0 where
  pub pending_read_index : List (List ℕ × ReadIndexStatus)
  pub read_index_queue : List (List ℕ)

abbrev pub new_read_only : ReadOnly
new_read_only = record { pending_read_index = []; read_index_queue = [] }

unfoldable pub add_request : ReadOnly → List ℕ → ℕ → Message → ReadOnly × Bool
add_request ro ctx read_index m = elim (lookup ctx ro.pending_read_index) [
  | some _ ↦ (ro, false)
  | none ↦ (
    record {
      pending_read_index =
          insert ctx (record { req = m; index = read_index; acks = [] }) ro.pending_read_index;
      read_index_queue = ro.read_index_queue ++ ctx ∷ [];
    },
    true,
  )
]

-- The status is shared by pointer: the ack is seen through the map.
unfoldable pub recv_ack : ReadOnly → List ℕ → ℕ → ReadOnly × List (ℕ × Unit {0})
recv_ack ro ctx sender = elim (lookup ctx ro.pending_read_index) [
  | none ↦ (ro, [])
  | some rs ↦
      let acks = insert sender tt rs.acks in
      (
        record ro {
          pending_read_index = insert ctx (record rs { acks = acks }) ro.pending_read_index;
        },
        acks,
      )
]

-- The loop of `advance`: `i`, `rss` and `found` at its end.
unfoldable pub advance_loop :
    List (List ℕ × ReadIndexStatus) → List ℕ → List (List ℕ) → R (ℕ × List ReadIndexStatus × Bool)
advance_loop pending ctx [] = ok (0, [], false)
advance_loop pending ctx (queued ∷ rest) =
    let later = advance_loop pending ctx rest in
    do
      rs ← deref (lookup queued pending)
      if bytes_beq queued ctx
          then ok (1, rs ∷ [], true)
          else (do l ← later; ok (suc l.0, rs ∷ l.1, l.2))

-- `delete(ro.pendingReadIndex, string(rs.req.Entries[0].Data))` for each status.
unfoldable pub delete_all :
    List ReadIndexStatus → List (List ℕ × ReadIndexStatus) → R (List (List ℕ × ReadIndexStatus))
delete_all [] pending = ok pending
delete_all (rs ∷ rest) pending = do
  e ← index rs.req.entries 0
  delete_all rest (delete e.bytes pending)

unfoldable pub advance : ReadOnly → List ℕ → R (ReadOnly × List ReadIndexStatus)
unfolding advance_loop delete_all
advance ro ctx = do
  l ← advance_loop ro.pending_read_index ctx ro.read_index_queue
  if l.2
      then (do
        pending ← delete_all l.1 ro.pending_read_index
        ok (
          record { pending_read_index = pending; read_index_queue = drop l.0 ro.read_index_queue },
          l.1,
        ))
      else ok (ro, [])
