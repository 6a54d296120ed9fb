-- ===== src/Raft/Quorum/Commit.antt =====
-- What the leader commits.
use yukino_go.Base.{
  ℕ, ◌-◌, ◌≤◌, ◌<◌, ◌≡◌, arith, true, false, some, List, [], ◌∷◌, leb, ltb, count_if, get_elem?, ok,
  index, >>=-eq-ok,
}
use yukino_go.Raft.Progress.{Progress}
use yukino_go.Raft.Storage.{Error}
use yukino_go.Raft.Log.{RaftLog, log_term, commit_to, log_maybe_commit, zero_term_on_err_compacted}
use yukino_go.Raft.State.{Raft, quorum}
use yukino_go.Raft.Quorum.{sort_desc, matches, maybe_commit}
use yukino_go.Raft.Quorum.Sorted.{
  sort_desc-IsDesc, count_if-sort_desc, count_if-reach, count_if-beyond,
}

-- The peers, the leader among them, whose log is known to reach `i`.
pub replicas : ℕ → List (ℕ × Progress) → ℕ
replicas i prs = count_if (leb i) (matches prs)

count_if-weaken : (c j : ℕ) (xs : List ℕ) → c < j → count_if (leb j) xs ≤ count_if (ltb c) xs
count_if-weaken c j [] h = omega arith
count_if-weaken c j (x ∷ xs) h = ground (arith, count_if-weaken c j xs)

index-some : (xs : List ℕ) (k v : ℕ) → index {E = Error} xs k ≡ ok v → get_elem? xs k ≡ some v
index-some xs k v h = ground arith

log_maybe_commit-true :
    (l l' : RaftLog) (i t : ℕ)
    → log_maybe_commit l i t ≡ ok (l', true)
    → (l'.commit_index ≡ i)
      × (l.commit_index < i)
      × (zero_term_on_err_compacted (log_term l i) ≡ ok t)
unfolding log_maybe_commit commit_to
log_maybe_commit-true l l' i t h = ground arith

log_maybe_commit-false :
    (l l' : RaftLog) (i t : ℕ) → log_maybe_commit l i t ≡ ok (l', false) → l' ≡ l
unfolding log_maybe_commit
log_maybe_commit-false l l' i t h = ground arith

-- What `maybeCommit` answers, with the index it looked at.
pub record Committed (r r' : Raft) : Type 0 where
  pub grows : r.raft_log.commit_index < r'.raft_log.commit_index
  pub stored : quorum r ≤ replicas r'.raft_log.commit_index r.prs
  pub current :
      zero_term_on_err_compacted (log_term r.raft_log r'.raft_log.commit_index) ≡ ok r.term
  pub largest : (j : ℕ) → r'.raft_log.commit_index < j → replicas j r.prs < quorum r

module _ (r : Raft) (mid : ℕ)
    (found : index {E = Error} (sort_desc (matches r.prs)) (quorum r - 1) ≡ ok mid) where
  at_mid : get_elem? (sort_desc (matches r.prs)) (quorum r - 1) ≡ some mid
  at_mid = index-some (sort_desc (matches r.prs)) (quorum r - 1) mid found

  pub quorum-le-replicas : quorum r ≤ replicas mid r.prs
  unfolding replicas quorum
  quorum-le-replicas = omega (
    arith,
    count_if-sort_desc (leb mid) (matches r.prs),
    count_if-reach mid (quorum r - 1) (sort_desc (matches r.prs)) (sort_desc-IsDesc (matches r.prs))
        at_mid,
  )

  pub replicas-lt-quorum : (j : ℕ) → mid < j → replicas j r.prs < quorum r
  unfolding replicas quorum
  replicas-lt-quorum j h = omega (
    arith,
    count_if-sort_desc (ltb mid) (matches r.prs),
    count_if-weaken mid j (matches r.prs) h,
    count_if-beyond mid (quorum r - 1) (sort_desc (matches r.prs))
        (sort_desc-IsDesc (matches r.prs)) at_mid,
  )

-- When the leader's `maybeCommit` advances the commit index, the new index is stored on a quorum,
-- its entry is of the leader's term, and no larger index is stored on a quorum.
pub maybe_commit-Committed : (r r' : Raft) → maybe_commit r ≡ ok (r', true) → Committed r r'
unfolding maybe_commit
maybe_commit-Committed r r' h =
    let (mid, found, h1) = >>=-eq-ok (index (sort_desc (matches r.prs)) (quorum r - 1)) _ h in
    let (res, e, h2) = >>=-eq-ok (log_maybe_commit r.raft_log mid r.term) _ h1 in
    let e' : log_maybe_commit r.raft_log mid r.term ≡ ok (r'.raft_log, true) = ground arith in
    let (a, b, c) = log_maybe_commit-true r.raft_log r'.raft_log mid r.term e' in
    record {
      grows = rw a b;
      stored = rw a (quorum-le-replicas r mid found);
      current = rw a c;
      largest = λ j k. replicas-lt-quorum r mid found j (omega arith);
    }

-- When it does not, it changes nothing.
pub maybe_commit-false : (r r' : Raft) → maybe_commit r ≡ ok (r', false) → r' ≡ r
unfolding maybe_commit
maybe_commit-false r r' h =
    let (mid, found, h1) = >>=-eq-ok (index (sort_desc (matches r.prs)) (quorum r - 1)) _ h in
    let (res, e, h2) = >>=-eq-ok (log_maybe_commit r.raft_log mid r.term) _ h1 in
    let e' : log_maybe_commit r.raft_log mid r.term ≡ ok (r'.raft_log, false) = ground arith in
    ground (arith, log_maybe_commit-false r.raft_log r'.raft_log mid r.term e')
