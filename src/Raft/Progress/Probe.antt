-- ===== src/Raft/Progress/Probe.antt =====
-- The probing of a follower's log by the leader.
use yukino_go.Base.{ℕ, ◌+◌, ◌-◌, ◌≤◌, ◌<◌, ◌≡◌, arith, true, false, max, u64}
use yukino_go.Raft.Progress.{Progress, maybe_update, may_decrease_to}

-- The rejection of index `i`, with the follower's last index `hint`, was that of the probe. `Next`
-- moves down, unless it is at its floor 1 already, and never below 1; the next probe, of `Next - 1`,
-- is not past the follower's last index, and no index that the follower has below the rejected one is
-- skipped.
pub record Probed (pr pr' : Progress) (i hint : ℕ) : Type 0 where
  pub current : pr.next ≡ i + 1
  pub at_least : 1 ≤ pr'.next
  pub falls : 1 < pr.next → pr'.next < pr.next
  pub at_most : pr'.next - 1 ≤ hint
  pub none_skipped : (j : ℕ) → j < i → j ≤ hint → j ≤ pr'.next - 1
  pub same_match : pr'.matched ≡ pr.matched

-- A rejection that the leader takes up is that of its last probe. It leaves `Match` as it is, lowers
-- `Next` unless it is 1, and not below 1; the index that is probed next, `Next - 1`, is at most the
-- follower's last index, and at least every lower index than the rejected one that the follower has.
pub may_decrease_to-Probed :
    (pr pr' : Progress) (i hint : ℕ)
    → 1 ≤ pr.next
    → pr.next < u64
    → i < u64
    → hint + 1 < u64
    → may_decrease_to pr i hint ≡ (pr', true)
    → Probed pr pr' i hint
unfolding may_decrease_to
may_decrease_to-Probed pr pr' i hint a b c d h = record {
  current = ground arith;
  at_least = ground arith;
  falls = ground arith;
  at_most = ground arith;
  none_skipped = λ j low has. ground arith;
  same_match = ground arith;
}

pub may_decrease_to-false :
    (pr pr' : Progress) (i hint : ℕ) → may_decrease_to pr i hint ≡ (pr', false) → pr' ≡ pr
unfolding may_decrease_to
may_decrease_to-false pr pr' i hint h = ground arith

-- An acknowledgement of index `n` raises `Match` to `n` and `Next` to `n + 1` where they are below,
-- and answers whether `Match` rose.
pub maybe_update-eq :
    (pr : Progress) (n : ℕ)
    → n + 1 < u64
    → ((maybe_update pr n).0.matched ≡ max pr.matched n)
      × ((maybe_update pr n).0.next ≡ max pr.next (n + 1))
      × ((maybe_update pr n).1 ≡ true → pr.matched < n)
      × (pr.matched < n → (maybe_update pr n).1 ≡ true)
unfolding maybe_update
maybe_update-eq pr n h = (ground arith, ground arith, ground arith, ground arith)
