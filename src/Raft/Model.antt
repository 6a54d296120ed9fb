-- ===== src/Raft/Model.antt =====
-- components/raft/raft/model.go and util.go: the data types of the protocol.
use yukino_go.Base.{ℕ, suc, Bool, true, false, ◌&&◌, List, [], ◌∷◌, nat_beq, if◌then◌else◌}

pub data EntryType : Type 0 where
  entry_normal entry_conf_change : EntryType

-- `Data []byte` is the list of its bytes; nil and an empty slice are both `[]`.
pub record Entry : Type 0 where
  pub term : ℕ
  pub index : ℕ
  pub type : EntryType
  pub bytes : List ℕ

pub data MessageType : Type 0 where
  msg_hup msg_beat msg_prop msg_app msg_app_resp msg_vote msg_vote_resp : MessageType
  msg_heartbeat msg_heartbeat_resp msg_read_index msg_read_index_resp : MessageType
  msg_pre_vote msg_pre_vote_resp : MessageType

-- The constants' values.
abbrev type_code : MessageType → ℕ
type_code msg_hup = 0
type_code msg_beat = 1
type_code msg_prop = 2
type_code msg_app = 3
type_code msg_app_resp = 4
type_code msg_vote = 5
type_code msg_vote_resp = 6
type_code msg_heartbeat = 7
type_code msg_heartbeat_resp = 8
type_code msg_read_index = 9
type_code msg_read_index_resp = 10
type_code msg_pre_vote = 11
type_code msg_pre_vote_resp = 12

-- `m.Type == t`
abbrev pub type_beq : MessageType → MessageType → Bool
type_beq a b = nat_beq (type_code a) (type_code b)

pub record Message : Type 0 where
  pub type : MessageType
  pub to : ℕ
  pub sender : ℕ  -- `From`
  pub term : ℕ
  pub log_term : ℕ
  pub log_index : ℕ
  pub entries : List Entry
  pub commit_index : ℕ
  pub reject : Bool
  pub reject_hint : ℕ
  pub context : List ℕ

-- The zero value, which the literals of the source start from.
abbrev pub blank : Message
blank = record {
  type = msg_hup;
  to = 0;
  sender = 0;
  term = 0;
  log_term = 0;
  log_index = 0;
  entries = [];
  commit_index = 0;
  reject = false;
  reject_hint = 0;
  context = [];
}

pub data StateType : Type 0 where
  state_follower state_candidate state_leader state_pre_candidate : StateType

abbrev state_code : StateType → ℕ
state_code state_follower = 0
state_code state_candidate = 1
state_code state_leader = 2
state_code state_pre_candidate = 3

abbrev pub state_beq : StateType → StateType → Bool
state_beq a b = nat_beq (state_code a) (state_code b)

pub record SoftState : Type 0 where
  pub lead : ℕ
  pub raft_state : StateType

abbrev pub soft_equal : SoftState → SoftState → Bool
soft_equal s pre = nat_beq s.lead pre.lead && state_beq s.raft_state pre.raft_state

pub record HardState : Type 0 where
  pub term : ℕ
  pub vote : ℕ
  pub commit_index : ℕ

abbrev pub empty_hard_state : HardState
empty_hard_state = record { term = 0; vote = 0; commit_index = 0 }

abbrev pub hard_equal : HardState → HardState → Bool
hard_equal a b =
    nat_beq a.term b.term && nat_beq a.vote b.vote && nat_beq a.commit_index b.commit_index

pub data CampaignType : Type 0 where
  campaign_pre_election campaign_election : CampaignType

pub data ConfChangeType : Type 0 where
  conf_add_node conf_remove_node conf_update_node : ConfChangeType

pub record ConfChange : Type 0 where
  pub type : ConfChangeType
  pub node_id : ℕ

-- util.go
unfoldable pub is_conf_change : EntryType → Bool
is_conf_change entry_normal = false
is_conf_change entry_conf_change = true

unfoldable pub num_of_pending_conf : List Entry → ℕ
unfolding is_conf_change
num_of_pending_conf [] = 0
num_of_pending_conf (ent ∷ rest) =
    let n = num_of_pending_conf rest in if is_conf_change ent.type then suc n else n
