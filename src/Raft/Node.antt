-- ===== src/Raft/Node.antt =====
-- components/raft/raft/node.go and ready.go: the loop of `Node.run`, one event at a time. The
-- channels are not modelled: an event is one case of the `select` that can be taken.
pub mod Persist
use yukino_go.Base.{
  ℕ, zero, ◌+◌, Bool, true, false, not, ◌&&◌, ◌||◌, Option, none, some, List, [], ◌∷◌, length,
  nat_beq, if◌then◌else◌, ok, panic, ◌>>=◌, must,
}
use yukino_go.Raft.Model.{
  Entry, Message, SoftState, soft_equal, HardState, hard_equal, empty_hard_state, ConfChange,
}
use yukino_go.Raft.Storage.{R, Storage, storage_append, set_hard_state}
use yukino_go.Raft.Log.{RaftLog, last_index, next_entries, applied_to, stable_to}
use yukino_go.Raft.ReadOnly.{ReadState}
use yukino_go.Raft.State.{Raft, soft_state, hard_state, add_node, apply_conf_change}
use yukino_go.Raft.Step.{Config, new_raft, step_raft, run_tick}

pub record Ready : Type 0 where
  pub soft : Option SoftState
  pub hard : HardState
  pub read_states : List ReadState
  pub entries : List Entry
  pub committed_entries : List Entry
  pub messages : List Message

abbrev pub is_empty_hard_state : HardState → Bool
is_empty_hard_state h = hard_equal h empty_hard_state

unfoldable pub new_ready : Raft → SoftState → HardState → R Ready
new_ready r pre_soft pre_hard = do
  committed ← next_entries r.raft_log
  ok (record {
    soft = if soft_equal (soft_state r) pre_soft then none else some (soft_state r);
    hard = if hard_equal (hard_state r) pre_hard then empty_hard_state else hard_state r;
    read_states = r.read_states;
    entries = r.raft_log.unstable.entries;
    committed_entries = committed;
    messages = r.msgs;
  })

abbrev is_some {ℓ} : {A : Type ℓ} → Option A → Bool
is_some none = false
is_some (some _) = true

abbrev not_empty {ℓ} : {A : Type ℓ} → List A → Bool
not_empty [] = false
not_empty (_ ∷ _) = true

unfoldable pub contains_updates : Ready → Bool
contains_updates rd =
    is_some rd.soft
    || not (is_empty_hard_state rd.hard)
    || not_empty rd.entries
    || not_empty rd.committed_entries
    || not_empty rd.messages
    || not_empty rd.read_states

-- The local variables of `run`; `advancing` is `advanceChan != nil`.
pub record Loop : Type 0 where
  pub raft : Raft
  pub prev_soft : SoftState
  pub prev_hard : HardState
  pub rd : Ready
  pub advancing : Bool
  pub last_i : ℕ
  pub last_t : ℕ
  pub has_last : Bool

-- `StartNode`, and the variables as `run` declares them.
unfoldable pub add_peers : List ℕ → Raft → R Raft
add_peers [] r = ok r
add_peers (id ∷ ids) r = do r' ← add_node id r; add_peers ids r'

abbrev pub empty_ready : Ready
empty_ready = record {
  soft = none;
  hard = empty_hard_state;
  read_states = [];
  entries = [];
  committed_entries = [];
  messages = [];
}

unfoldable pub start_node : Config → List ℕ → (ℕ → ℕ) → R Loop
unfolding add_peers
start_node conf peers rand = do
  r ← new_raft conf rand
  r' ← add_peers peers r
  last ← last_index r'.raft_log
  let started = record r' { raft_log = record r'.raft_log { commit_index = last } }
  ok (record {
    raft = started;
    prev_soft = soft_state started;
    prev_hard = empty_hard_state;
    rd = empty_ready;
    advancing = false;
    last_i = 0;
    last_t = 0;
    has_last = false;
  })

-- The head of the loop: the `Ready` that is offered, if one is.
unfoldable pub offer : Loop → R Loop
unfolding new_ready
offer s =
    if s.advancing
    then ok s
    else (do rd ← new_ready s.raft s.prev_soft s.prev_hard; ok (record s { rd = rd }))

pub data Event : Type 0 where
  proc : Message → Event
  recv : Message → Event
  conf : ConfChange → Event
  tick : Event
  ready : Event
  advanced : Event

-- `rd.Entries[len(rd.Entries)-1]`
abbrev pub last_entry : Entry → List Entry → Entry
last_entry e [] = e
last_entry e (f ∷ fs) = last_entry f fs

unfoldable pub note_last : List Entry → Loop → Loop
note_last [] s = s
note_last (e ∷ es) s =
    let last = last_entry e es in
    record s { last_i = last.index; last_t = last.term; has_last = true }

-- The case `readyChan <- rd`.
unfoldable pub on_ready : Loop → Loop
unfolding note_last
on_ready s =
    let s' = note_last s.rd.entries s in
    record s' {
      prev_soft = elim s.rd.soft [ none ↦ s.prev_soft | some soft ↦ soft ];
      prev_hard = if is_empty_hard_state s.rd.hard then s.prev_hard else s.rd.hard;
      raft = record s.raft { msgs = []; read_states = [] };
      advancing = true;
    }

abbrev pub with_log : Loop → RaftLog → Loop
with_log s log = record s { raft = record s.raft { raft_log = log } }

-- The case `<-advanceChan`.
unfoldable pub on_advance : Loop → R Loop
on_advance s = do
  let saved =
      if is_empty_hard_state s.prev_hard
      then s.raft.raft_log
      else record s.raft.raft_log { storage = set_hard_state s.raft.raft_log.storage s.prev_hard }
  applied ←
      if nat_beq s.prev_hard.commit_index 0
      then ok saved
      else applied_to saved s.prev_hard.commit_index
  if s.has_last
      then (do
        storage ← must (storage_append applied.storage s.rd.entries)
        log ← stable_to (record applied { storage = storage }) s.last_i s.last_t
        ok (record (with_log s log) { has_last = false; advancing = false }))
      else ok (record (with_log s applied) { advancing = false })

abbrev pub with_raft : Loop → R Raft → R (Option Loop)
with_raft s m = do r ← m; ok (some (record s { raft = r }))

-- The `select`; `none` is a case that cannot be taken.
unfoldable pub on_event : Event → Loop → R (Option Loop)
unfolding on_ready on_advance contains_updates
on_event (proc m) s = with_raft s (step_raft (record m { sender = s.raft.id }) s.raft)
on_event (recv m) s = with_raft s (step_raft m s.raft)
on_event (conf cc') s = do res ← apply_conf_change cc' s.raft; ok (some (record s { raft = res.0 }))
on_event tick s = with_raft s (run_tick s.raft.tick s.raft)
on_event ready s =
    if not s.advancing && contains_updates s.rd then ok (some (on_ready s)) else ok none
on_event advanced s = if s.advancing then (do s' ← on_advance s; ok (some s')) else ok none

-- One round of the loop.
unfoldable pub round : Event → Loop → R (Option Loop)
unfolding offer on_event
round e s = do s' ← offer s; on_event e s'
