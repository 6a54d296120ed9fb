-- ===== src/Raft/Progress.antt =====
-- components/raft/raft/progress.go: what the leader knows of a peer's log.
pub mod Probe
use yukino_go.Base.{ℕ, min, Bool, true, false, not, ltb, nat_beq, add64, sub64, if◌then◌else◌}

-- `State` is declared in the source, and nothing reads or writes it.
pub record Progress : Type 0 where
  pub matched : ℕ  -- `Match`
  pub next : ℕ

unfoldable pub maybe_update : Progress → ℕ → Progress × Bool
maybe_update pr n =
    let updated = ltb pr.matched n in
    (
      record {
        matched = if updated then n else pr.matched;
        next = if ltb pr.next (add64 n 1) then add64 n 1 else pr.next;
      },
      updated,
    )

unfoldable pub may_decrease_to : Progress → ℕ → ℕ → Progress × Bool
may_decrease_to pr log_index reject_hint =
    if not (nat_beq (sub64 pr.next 1) log_index)
    then (pr, false)
    else let next : ℕ = min log_index (add64 reject_hint 1) in
      (record pr { next = if ltb next 1 then 1 else next }, true)
