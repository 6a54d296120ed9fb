-- ===== src/Raft/Safety/LogCommit.antt =====
-- The operations of the log never lower its commit index.
use yukino_go.Base.{
  ℕ, ◌≤◌, ◌≡◌, refl, arith, not, List, [], ◌∷◌, length, min, nat_beq, leb, ltb, Ensures, Ensures-ok,
  Ensures-panic, Ensures-if, Ensures-then, Ensures-bind, sub64, add64, slice,
}
use yukino_go.Raft.Model.{Entry}
use yukino_go.Raft.Unstable.{truncate_and_append}
use yukino_go.Raft.Log.{
  RaftLog, last_index, log_term, match_term, find_conflict, log_append, append_from, commit_to,
  maybe_append, log_maybe_commit, zero_term_on_err_compacted,
}

abbrev CommitLe : RaftLog → RaftLog → Type 0
CommitLe l l' = l.commit_index ≤ l'.commit_index

pub commit-commit_to :
    (l : RaftLog) (i : ℕ) → Ensures (λ l'. l.commit_index ≤ l'.commit_index) (commit_to l i)
unfolding commit_to
commit-commit_to l i =
    Ensures-if (leb i l.commit_index) (λ h. Ensures-ok (omega arith))
      (λ h.
        Ensures-then (last_index l) _
          λ last e. Ensures-if (ltb last i) (λ _. Ensures-panic) (λ _. Ensures-ok (ground arith)))

pub commit-log_append :
    (l : RaftLog) (es : List Entry)
    → Ensures (λ l'. l'.commit_index ≡ l.commit_index) (log_append l es)
unfolding log_append
commit-log_append l [] = Ensures-ok refl
commit-log_append l (e ∷ es) =
    Ensures-if (ltb (sub64 e.index 1) l.commit_index) (λ h. Ensures-panic)
      (λ h. Ensures-then (truncate_and_append l.unstable (e ∷ es)) _ λ u _. Ensures-ok refl)

commit-append_from :
    (l : RaftLog) (i : ℕ) (es : List Entry) (c : ℕ)
    → Ensures (λ l'. l'.commit_index ≡ l.commit_index) (append_from l i es c)
unfolding append_from
commit-append_from l i es c =
    Ensures-if (nat_beq c 0) (λ h. Ensures-ok refl)
      (λ h.
        Ensures-if (leb c l.commit_index) (λ _. Ensures-panic)
          (λ _.
            Ensures-then (slice es (sub64 c (add64 i 1)) (length es)) _
              λ rest _. commit-log_append l rest))

pub commit-maybe_append :
    (l : RaftLog) (i t c : ℕ) (es : List Entry)
    → Ensures (λ res. l.commit_index ≤ res.0.commit_index) (maybe_append l i t c es)
unfolding maybe_append
commit-maybe_append l i t c es = Ensures-then (match_term l i t) _ λ same _.
    Ensures-if (not same) (λ _. Ensures-ok (omega arith))
      λ _. Ensures-then (find_conflict l es) _ λ conflict _.
        Ensures-bind (append_from l i es conflict) _ (commit-append_from l i es conflict) λ l' e.
          Ensures-bind (commit_to l' (min c (add64 i (length es)))) _ (commit-commit_to l' _)
            λ l'' h. Ensures-ok (omega arith)

pub commit-log_maybe_commit :
    (l : RaftLog) (i t : ℕ)
    → Ensures (λ res. l.commit_index ≤ res.0.commit_index) (log_maybe_commit l i t)
unfolding log_maybe_commit
commit-log_maybe_commit l i t =
    Ensures-if (ltb l.commit_index i)
      (λ _. Ensures-then (zero_term_on_err_compacted (log_term l i)) _ λ t' _.
        Ensures-if (nat_beq t' t)
          (λ _. Ensures-bind (commit_to l i) _ (commit-commit_to l i) λ l' h. Ensures-ok h)
          (λ _. Ensures-ok (omega arith)))
      (λ _. Ensures-ok (omega arith))
