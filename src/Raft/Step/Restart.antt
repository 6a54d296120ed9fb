-- ===== src/Raft/Step/Restart.antt =====
-- What `newRaft` takes from a storage that a previous run has written.
use yukino_go.Base.{ℕ, ◌≡◌, refl, arith, nat_beq, if◌then◌else◌, Ensures, Ensures-ok, Ensures-then}
use yukino_go.Raft.Model.{state_follower}
use yukino_go.Raft.Log.{new_raft_log, applied_to}
use yukino_go.Raft.State.{Raft}
use yukino_go.Raft.Step.{Config, new_raft}

-- A node starts as a follower of no one, in the stored term, or 1 if that is 0, and without a vote,
-- whatever vote was stored: it can vote again in a term in which it has voted.
pub record Restarted (conf : Config) (r : Raft) : Type 0 where
  pub term :
      r.term ≡ (if nat_beq conf.storage.hard_state.term 0 then 1 else conf.storage.hard_state.term)
  pub vote : r.vote ≡ 0
  pub state : r.state ≡ state_follower
  pub lead : r.lead ≡ 0

pub new_raft-Restarted :
    (conf : Config) (rand : ℕ → ℕ) → Ensures (Restarted conf) (new_raft conf rand)
unfolding new_raft
new_raft-Restarted conf rand = Ensures-then (new_raft_log conf.storage) _ λ log _.
    Ensures-then (applied_to log conf.applied) _ λ log' _.
      Ensures-ok (record { term = ground arith; vote = ground arith; state = refl; lead = refl })
