-- ===== src/Raft/Quorum.antt =====
-- components/raft/raft/raft.go, `appendEntry` and `maybeCommit`: the leader's own appends, and the
-- index that a quorum has stored.
pub mod Sorted
pub mod Commit
use yukino_go.Base.{
  ℕ, zero, suc, ◌+◌, ◌-◌, Bool, Option, List, [], ◌∷◌, leb, lookup, insert, nat_eq, add64,
  if◌then◌else◌, ok, ◌>>=◌, deref, index,
}
use yukino_go.Raft.Model.{Entry}
use yukino_go.Raft.Progress.{Progress, maybe_update}
use yukino_go.Raft.Storage.{R}
use yukino_go.Raft.Log.{last_index, log_append, log_maybe_commit}
use yukino_go.Raft.State.{Raft, quorum}

-- `sort.Sort(sort.Reverse(matches))`: a descending list.
unfoldable pub insert_desc : ℕ → List ℕ → List ℕ
insert_desc a [] = a ∷ []
insert_desc a (b ∷ bs) = let rest = insert_desc a bs in if leb b a then a ∷ b ∷ bs else b ∷ rest

unfoldable pub sort_desc : List ℕ → List ℕ
sort_desc [] = []
sort_desc (a ∷ as') = insert_desc a (sort_desc as')

abbrev pub matches : List (ℕ × Progress) → List ℕ
matches [] = []
matches ((_, pr) ∷ m) = pr.matched ∷ matches m

unfoldable pub maybe_commit : Raft → R (Raft × Bool)
maybe_commit r = do
  mid ← index (sort_desc (matches r.prs)) (quorum r - 1)
  res ← log_maybe_commit r.raft_log mid r.term
  ok (record r { raft_log = res.0 }, res.1)

-- `es[i].Term = r.Term; es[i].Index = lastIndex + uint64(i) + 1`
unfoldable pub number_entries : ℕ → ℕ → ℕ → List Entry → List Entry
number_entries term last i [] = []
number_entries term last i (e ∷ es) =
    record e { term = term; index = add64 (add64 last i) 1 } ∷ number_entries term last (suc i) es

unfoldable pub append_entry : List Entry → Raft → R Raft
unfolding maybe_commit
append_entry es r = do
  last ← last_index r.raft_log
  log ← log_append r.raft_log (number_entries r.term last 0 es)
  pr ← deref (lookup r.id r.prs)
  last' ← last_index log
  let pr' = (maybe_update pr last').0
  res ← maybe_commit (record r { raft_log = log; prs = insert r.id pr' r.prs })
  ok res.0
