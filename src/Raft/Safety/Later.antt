-- ===== src/Raft/Safety/Later.antt =====
-- The order on the states of a node that every handler respects.
use yukino_go.Base.{ℕ, ◌≤◌, ◌≡◌, ◌≢◌, refl, arith, Ensures}
use yukino_go.Raft.Storage.{R}
use yukino_go.Raft.State.{Raft, reset, become_follower}

-- `r'` may follow `r`.
pub record Later (r r' : Raft) : Type 0 where
  pub term_le : r.term ≤ r'.term
  pub vote_kept : r.term ≡ r'.term → r.vote ≢ 0 → r'.vote ≡ r.vote
  pub commit_le : r.raft_log.commit_index ≤ r'.raft_log.commit_index
  pub same_id : r'.id ≡ r.id

abbrev pub Keeps : (Raft → R Raft) → Type 0
Keeps f = (r : Raft) → Ensures (Later r) (f r)

pub Later-refl : (r : Raft) → Later r r
Later-refl r = record {
  term_le = omega arith;
  vote_kept = λ e n. refl;
  commit_le = omega arith;
  same_id = refl;
}

pub Later-trans : (r s t : Raft) → Later r s → Later s t → Later r t
Later-trans r s t p q = record {
  term_le = omega (arith, p.term_le, q.term_le);
  vote_kept = λ e n. ground (arith, p.term_le, q.term_le, p.vote_kept, q.vote_kept);
  commit_le = omega (arith, p.commit_le, q.commit_le);
  same_id = cc (p.same_id, q.same_id);
}

-- A state that differs in other fields than the four.
pub Later-same :
    (r r' : Raft)
    → r'.term ≡ r.term
    → r'.vote ≡ r.vote
    → r.raft_log.commit_index ≤ r'.raft_log.commit_index
    → r'.id ≡ r.id
    → Later r r'
Later-same r r' a b c d = record {
  term_le = omega arith;
  vote_kept = λ e n. b;
  commit_le = c;
  same_id = d;
}

pub Later-reset : (t : ℕ) (r : Raft) → r.term ≤ t → Later r (reset t r)
unfolding reset
Later-reset t r h = ground arith

pub Later-become_follower :
    (t lead : ℕ) (r : Raft) → r.term ≤ t → Later r (become_follower t lead r)
unfolding become_follower
Later-become_follower t lead r h = ground arith
