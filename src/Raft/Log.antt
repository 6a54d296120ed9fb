-- ===== src/Raft/Log.antt =====
-- components/raft/raft/log.go, `raftLog`: storage and unstable tail as one log, with its commit and
-- apply indices. The storage is `MemoryStorage`.
pub mod View
pub mod Terms
pub mod Append
pub mod Agree
pub mod Placing
pub mod Receive
use yukino_go.Base.{
  ℕ, ◌+◌, ◌-◌, Bool, true, false, not, ◌&&◌, ◌||◌, Option, none, some, List, [], ◌∷◌, ◌++◌, length,
  ltb, leb, nat_beq, add64, sub64, min, max, if◌then◌else◌, Res, ok, err, panic, ◌>>=◌, slice, must,
}
use yukino_go.Raft.Model.{Entry}
use yukino_go.Raft.Storage.{
  Error, compacted, unavailable, R, Storage, storage_first_index, storage_last_index,
  storage_entries, storage_term,
}
use yukino_go.Raft.Unstable.{
  Unstable, unstable_slice, truncate_and_append, maybe_last_index, maybe_term, unstable_stable_to,
}

pub record RaftLog : Type 0 where
  pub storage : Storage
  pub unstable : Unstable
  pub commit_index : ℕ
  pub apply_index : ℕ

unfoldable pub first_index : RaftLog → R ℕ
first_index r = must (storage_first_index r.storage)

unfoldable pub last_index : RaftLog → R ℕ
last_index r = elim (maybe_last_index r.unstable) [
  | some i ↦ ok i
  | none ↦ must (storage_last_index r.storage)
]

unfoldable pub new_raft_log : Storage → R RaftLog
new_raft_log storage = do
  first ← must (storage_first_index storage)
  last ← must (storage_last_index storage)
  ok (record {
    storage = storage;
    unstable = record { entries = []; offset = add64 last 1 };
    commit_index = sub64 first 1;
    apply_index = sub64 first 1;
  })

unfoldable pub stable_to : RaftLog → ℕ → ℕ → R RaftLog
stable_to r i t = do u ← unstable_stable_to r.unstable i t; ok (record r { unstable = u })

-- The part of `slice` behind its checks.
unfoldable pub slice_checked : RaftLog → ℕ → ℕ → R (List Entry)
slice_checked r lo hi = if nat_beq lo hi then ok [] else (do
  stable ←
      if ltb lo r.unstable.offset
      then must (storage_entries r.storage lo (min r.unstable.offset hi))
      else ok []
  tail ←
      if ltb r.unstable.offset hi
      then unstable_slice r.unstable (max lo r.unstable.offset) hi
      else ok []
  ok (stable ++ tail))

unfoldable pub log_slice : RaftLog → ℕ → ℕ → R (List Entry)
unfolding first_index last_index slice_checked
log_slice r lo hi = if ltb hi lo then panic else (do
  fi ← first_index r
  if ltb lo fi
      then panic
      else (do last ← last_index r; if ltb (add64 last 1) hi then panic else slice_checked r lo hi))

unfoldable pub next_entries : RaftLog → R (List Entry)
unfolding log_slice first_index
next_entries r = do
  fi ← first_index r
  let off = max (add64 r.apply_index 1) fi
  if ltb off (add64 r.commit_index 1)
      then must (log_slice r off (add64 r.commit_index 1))
      else ok []

-- `append`; the returned last index is not used by any caller.
unfoldable pub log_append : RaftLog → List Entry → R RaftLog
log_append r [] = ok r
log_append r (e ∷ es) =
    if ltb (sub64 e.index 1) r.commit_index
    then panic
    else (do u ← truncate_and_append r.unstable (e ∷ es); ok (record r { unstable = u }))

-- `term`: an index out of range has term 0.
unfoldable pub log_term : RaftLog → ℕ → R ℕ
unfolding first_index last_index
log_term r i = do
  fi ← first_index r
  last ← last_index r
  if ltb i (sub64 fi 1) || ltb last i then ok 0 else (do
    found ← maybe_term r.unstable i
    elim found [
      | none ↦ storage_term r.storage i
      | some t ↦ if nat_beq t 0 then storage_term r.storage i else ok t
    ])

unfoldable pub last_term : RaftLog → R ℕ
unfolding log_term last_index
last_term r = do i ← last_index r; must (log_term r i)

unfoldable pub is_up_to_date : RaftLog → ℕ → ℕ → R Bool
unfolding last_term last_index
is_up_to_date r i term = do
  lt ← last_term r
  li ← last_index r
  ok (ltb lt term || (nat_beq term lt && leb li i))

unfoldable pub applied_to : RaftLog → ℕ → R RaftLog
applied_to r i =
    if nat_beq i 0
    then ok r
    else if ltb r.commit_index i || ltb i r.apply_index
    then panic
    else ok (record r { apply_index = i })

unfoldable pub log_entries : RaftLog → ℕ → R (List Entry)
unfolding log_slice last_index
log_entries r i = do last ← last_index r; if ltb last i then ok [] else log_slice r i (add64 last 1)

unfoldable pub commit_to : RaftLog → ℕ → R RaftLog
unfolding last_index
commit_to r to_commit = if leb to_commit r.commit_index then ok r else (do
  last ← last_index r
  if ltb last to_commit then panic else ok (record r { commit_index = to_commit }))

abbrev pub zero_term_on_err_compacted : R ℕ → R ℕ
zero_term_on_err_compacted (ok t) = ok t
zero_term_on_err_compacted (err compacted) = ok 0
zero_term_on_err_compacted (err unavailable) = panic
zero_term_on_err_compacted panic = panic

-- The second conjunct is only read behind the first, as `&&` does.
unfoldable pub log_maybe_commit : RaftLog → ℕ → ℕ → R (RaftLog × Bool)
unfolding commit_to log_term
log_maybe_commit r max_index term =
    if ltb r.commit_index max_index
    then (do
      t ← zero_term_on_err_compacted (log_term r max_index)
      if nat_beq t term then (do r' ← commit_to r max_index; ok (r', true)) else ok (r, false))
    else ok (r, false)

abbrev pub term_matches : ℕ → R ℕ → R Bool
term_matches log_t (ok t) = ok (nat_beq t log_t)
term_matches log_t (err _) = ok false
term_matches log_t panic = panic

unfoldable pub match_term : RaftLog → ℕ → ℕ → R Bool
unfolding log_term
match_term r i t = term_matches t (log_term r i)

-- The index of the first entry that the log does not have, or 0.
unfoldable pub find_conflict : RaftLog → List Entry → R ℕ
unfolding match_term
find_conflict r [] = ok 0
find_conflict r (ent ∷ rest) =
    let later = find_conflict r rest in
    do same ← match_term r ent.index ent.term; if same then later else ok ent.index

-- The three cases of the `switch` of `maybeAppend`.
unfoldable pub append_from : RaftLog → ℕ → List Entry → ℕ → R RaftLog
unfolding log_append
append_from r log_index entries conflict =
    if nat_beq conflict 0 then ok r else if leb conflict r.commit_index then panic else (do
      rest ← slice entries (sub64 conflict (add64 log_index 1)) (length entries)
      log_append r rest)

-- `none` is the answer `0, false`.
unfoldable pub maybe_append : RaftLog → ℕ → ℕ → ℕ → List Entry → R (RaftLog × Option ℕ)
unfolding match_term find_conflict append_from commit_to
maybe_append r log_index log_t commit entries = do
  same ← match_term r log_index log_t
  if not same then ok (r, none) else (do
    let last_new = add64 log_index (length entries)
    conflict ← find_conflict r entries
    r' ← append_from r log_index entries conflict
    r'' ← commit_to r' (min commit last_new)
    ok (r'', some last_new))
