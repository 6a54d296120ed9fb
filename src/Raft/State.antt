-- ===== src/Raft/State.antt =====
-- components/raft/raft/raft.go and follower.go: the state of a node, and the operations that only
-- write its fields.
use yukino_go.Base.{
  ℕ, ◌+◌, ◌/◌, ◌%◌, Bool, true, false, none, some, List, [], ◌∷◌, ◌++◌, length, leb, nat_beq,
  lookup, insert, delete, nat_eq, add32, add64, le_s32, count_if, if◌then◌else◌, ok, ◌>>=◌,
}
use yukino_go.Raft.Model.{
  Message, type_beq, msg_prop, msg_read_index, StateType, state_follower, SoftState, HardState,
  ConfChange, ConfChangeType, conf_add_node, conf_remove_node, conf_update_node,
}
use yukino_go.Raft.Progress.{Progress}
use yukino_go.Raft.Storage.{R}
use yukino_go.Raft.Log.{RaftLog, last_index}
use yukino_go.Raft.ReadOnly.{ReadState, ReadOnly}

-- The functions that the field `step` points to, and those that `tick` points to.
pub data StepFunc : Type 0 where
  step_follower step_candidate step_leader : StepFunc

pub data TickFunc : Type 0 where
  tick_election tick_heartbeat : TickFunc

-- `rand` is no field of the source: it is the sequence that `math/rand` will draw from.
pub record Raft : Type 0 where
  pub id : ℕ
  pub term : ℕ
  pub read_states : List ReadState
  pub raft_log : RaftLog
  pub prs : List (ℕ × Progress)
  pub state : StateType
  pub votes : List (ℕ × Bool)
  pub msgs : List Message
  pub lead : ℕ
  pub pending_conf : Bool
  pub read_only : ReadOnly
  pub pre_vote : Bool
  pub tick : TickFunc
  pub step : StepFunc
  pub vote : ℕ
  pub check_quorum : Bool
  pub election_timeout : ℕ  -- int32, as are the next four
  pub randomized_election_timeout : ℕ
  pub election_elapsed : ℕ
  pub heartbeat_timeout : ℕ
  pub heartbeat_elapsed : ℕ
  pub rand : ℕ → ℕ

-- `rand.Intn(n)` lies below `n`.
unfoldable pub reset_randomized_election_timeout : Raft → Raft
reset_randomized_election_timeout r =
    let n = if le_s32 r.election_timeout 0 then 1 else r.election_timeout in
    record r { randomized_election_timeout = add32 n (r.rand 0 % n); rand = λ k. r.rand (k + 1) }

unfoldable pub reset : ℕ → Raft → Raft
unfolding reset_randomized_election_timeout
reset term r =
    let same = nat_beq r.term term in
    reset_randomized_election_timeout (record r {
      vote = if same then r.vote else 0;
      term = if same then r.term else term;
      lead = 0;
      election_elapsed = 0;
      heartbeat_elapsed = 0;
      votes = [];
      pending_conf = false;
    })

unfoldable pub become_follower : ℕ → ℕ → Raft → Raft
unfolding reset
become_follower term lead r =
    let r' = reset term r in
    record r' { step = step_follower; tick = tick_election; lead = lead; state = state_follower }

abbrev pub soft_state : Raft → SoftState
soft_state r = record { lead = r.lead; raft_state = r.state }

abbrev pub hard_state : Raft → HardState
hard_state r = record { term = r.term; commit_index = r.raft_log.commit_index; vote = r.vote }

-- What `send` writes into the message.
abbrev pub stamp : Raft → Message → Message
stamp r m = record m {
  sender = if nat_beq m.sender 0 then r.id else m.sender;
  term =
      if type_beq m.type msg_prop
      then m.term
      else if type_beq m.type msg_read_index
      then m.term
      else r.term;
}

unfoldable pub send : Message → Raft → Raft
send m r = record r { msgs = r.msgs ++ stamp r m ∷ [] }

unfoldable pub promotable : ℕ → Raft → Bool
promotable id r = elim (lookup id r.prs) [ none ↦ false | some _ ↦ true ]

unfoldable pub past_election_timeout : Raft → Bool
past_election_timeout r = le_s32 r.randomized_election_timeout r.election_elapsed

unfoldable pub quorum : Raft → ℕ
quorum r = length r.prs / 2 + 1

-- `votes` after the vote, and how many in it are granted.
unfoldable pub poll : ℕ → Bool → Raft → Raft × ℕ
poll id v r =
    let votes : List (ℕ × Bool) = elim (lookup id r.votes) [
      | none ↦ insert id v r.votes
      | some _ ↦ r.votes
    ] in
    (record r { votes = votes }, count_if (λ p. p.1) votes)

unfoldable pub add_node : ℕ → Raft → R Raft
add_node id r = elim (lookup id r.prs) [
  | some _ ↦ ok r
  | none ↦ do
    last ← last_index r.raft_log
    ok (record r { prs = insert id (record { matched = 0; next = add64 last 1 }) r.prs })
]

unfoldable pub remove_node : ℕ → Raft → Raft
unfolding become_follower
remove_node id r = elim (lookup id r.prs) [
  | none ↦ r
  | some _ ↦
      let r' = record r { prs = delete id r.prs } in
      if nat_beq id r.id then become_follower r'.term 0 r' else r'
]

-- `nodes` after its `slices.Sort`: insertion into an ascending list.
abbrev insert_sorted : ℕ → List ℕ → List ℕ
insert_sorted a [] = a ∷ []
insert_sorted a (b ∷ bs) = if leb a b then a ∷ b ∷ bs else b ∷ insert_sorted a bs

abbrev sorted_keys : List (ℕ × Progress) → List ℕ
sorted_keys [] = []
sorted_keys ((k, _) ∷ m) = insert_sorted k (sorted_keys m)

unfoldable pub nodes : Raft → List ℕ
nodes r = sorted_keys r.prs

unfoldable pub change_members : ConfChangeType → ℕ → Raft → R Raft
unfolding add_node remove_node
change_members conf_add_node id r = add_node id r
change_members conf_remove_node id r = ok (remove_node id r)
change_members conf_update_node id r = add_node id r

unfoldable pub apply_conf_change : ConfChange → Raft → R (Raft × List ℕ)
unfolding change_members nodes
apply_conf_change cc' r = do
  r' ← if nat_beq cc'.node_id 0 then ok r else change_members cc'.type cc'.node_id r
  let r'' = record r' { pending_conf = false }
  ok (r'', nodes r'')
