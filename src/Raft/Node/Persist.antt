-- ===== src/Raft/Node/Persist.antt =====
-- `Ready` and `Advance`: the unstable entries become stable, and the log stays the same log.
use mathlib.Core.List.{append_assoc}
use yukino_go.Base.{
  ℕ, zero, suc, ◌+◌, ◌-◌, ◌≤◌, ◌<◌, ◌≡◌, refl, sym, ap, ◌∙◌, arith, List, [], ◌∷◌, ◌++◌, take, drop,
  length, get_elem?, some, true, false, u64, add64, sub64, ok, take_all, length-drop, length-append,
  get_elem?-append_left,
}
use yukino_go.Raft.Model.{Entry, HardState}
use yukino_go.Raft.Storage.{Storage, storage_append, set_hard_state}
use yukino_go.Raft.Unstable.{Unstable, unstable_stable_to}
use yukino_go.Raft.Log.{RaftLog, applied_to, stable_to}
use yukino_go.Raft.Log.View.{base_of, base, stop, view, IsValid, length-view}
use yukino_go.Raft.Log.Terms.{offset_of-eq, maybe_term-within}
use yukino_go.Raft.Log.Agree.{Numbered-get_elem?}
use yukino_go.Raft.Node.{Loop, last_entry, with_log, on_advance}

last_entry-get_elem? :
    (e : Entry) (es : List Entry) → get_elem? (e ∷ es) (length es) ≡ some (last_entry e es)
last_entry-get_elem? e [] = refl
last_entry-get_elem? e (f ∷ fs) = last_entry-get_elem? f fs

-- `stableTo` of an unstable entry keeps those behind it.
stable_to_some :
    (u : Unstable) (n : ℕ) (x : Entry)
    → get_elem? u.entries n ≡ some x
    → n < length u.entries
    → u.offset + length u.entries < u64
    → unstable_stable_to u (u.offset + n) x.term
      ≡ ok (record { entries = drop (suc n) u.entries; offset = u.offset + n + 1 })
unfolding unstable_stable_to
stable_to_some u n x g a c =
    let d : u.offset + n - u.offset ≡ n = omega arith in
    let k : add64 (sub64 (u.offset + n) u.offset) 1 ≡ suc n = omega arith in
    let t : take (length u.entries - suc n) (drop (suc n) u.entries) ≡ drop (suc n) u.entries =
      take_all _ (drop (suc n) u.entries) (omega (arith, length-drop (suc n) u.entries)) in
    rw (maybe_term-within u (u.offset + n) x c (omega arith) (omega arith) (rw d g))
      (ground (arith, k, t))

drop-append : (es later : List Entry) → drop (length es) (es ++ later) ≡ later
drop-append [] later = refl
drop-append (e ∷ es) later = drop-append es later

-- The log with what was offered in storage.
abbrev saved_entries : RaftLog → List Entry → List Entry
saved_entries l es = take (l.unstable.offset - base l) l.storage.entries ++ es

module _ (l : RaftLog) (v : IsValid l) (e : Entry) (es later : List Entry)
    (tail : l.unstable.entries ≡ (e ∷ es) ++ later) where
  first : e.index ≡ l.unstable.offset
  first = (rw tail at v.tail).0

  last_there : get_elem? l.unstable.entries (length es) ≡ some (last_entry e es)
  last_there =
      rw tail
        (get_elem?-append_left (e ∷ es) later (length es) (omega arith) ∙ last_entry-get_elem? e es)

  unstable_length : length l.unstable.entries ≡ suc (length es) + length later
  unstable_length = ap length tail ∙ length-append (e ∷ es) later

  last_index_of : (last_entry e es).index ≡ l.unstable.offset + length es
  last_index_of =
      Numbered-get_elem? l.unstable.offset (length es) l.unstable.entries (last_entry e es) v.tail
        last_there

  saved-view : saved_entries l (e ∷ es) ++ later ≡ view l
  unfolding view
  saved-view =
      append_assoc (take (l.unstable.offset - base l) l.storage.entries) (e ∷ es) later
      ∙ ap (λ xs. take (l.unstable.offset - base l) l.storage.entries ++ xs) (sym tail)

  -- Storage after the append.
  storage_append-saved :
      (hs : HardState)
      → storage_append (record l.storage { hard_state = hs }) (e ∷ es)
        ≡ ok (record { hard_state = hs; entries = saved_entries l (e ∷ es) })
  unfolding storage_append
  storage_append-saved hs =
      rw (offset_of-eq (record l.storage { hard_state = hs }) l.storage.entries refl v.nonempty)
        (ground (arith, first, v.base_lt, v.joined, v.storage_room))

  stable_to-eq :
      (s : Storage) (a : ℕ)
      → stable_to
          (record l { storage = s; apply_index = a })
          (last_entry e es).index
          (last_entry e es).term
        ≡ ok (record l {
          storage = s;
          unstable = record { entries = later; offset = l.unstable.offset + suc (length es) };
          apply_index = a;
        })
  unfolding stable_to
  stable_to-eq s a =
      let rest : drop (suc (length es)) l.unstable.entries ≡ later =
        ap (drop (suc (length es))) tail ∙ drop-append (e ∷ es) later in
      let next : l.unstable.offset + length es + 1 ≡ l.unstable.offset + suc (length es) =
        omega arith in
      rw
        (
          last_index_of,
          stable_to_some l.unstable (length es) (last_entry e es) last_there
              (omega (arith, unstable_length)) v.room,
          rest,
          next,
        )
        refl

-- The log after the entries that were offered were saved, those that came later were not, and `i`
-- was applied.
pub record Persisted (l l' : RaftLog) (later : List Entry) (i : ℕ) : Type 0 where
  pub same_view : view l' ≡ view l
  pub saved : l'.storage.entries ++ later ≡ view l
  pub tail : l'.unstable.entries ≡ later
  pub same_commit : l'.commit_index ≡ l.commit_index
  pub applied : l'.apply_index ≡ i

abbrev saved_log : RaftLog → (es later : List Entry) → HardState → ℕ → RaftLog
saved_log l es later hs i = record {
  storage = record { hard_state = hs; entries = saved_entries l es };
  unstable = record { entries = later; offset = l.unstable.offset + length es };
  commit_index = l.commit_index;
  apply_index = i;
}

base-saved : (l : RaftLog) (es : List Entry) → IsValid l → base_of (saved_entries l es) ≡ base l
base-saved l es v =
    go l.storage.entries (l.unstable.offset - base l) v.nonempty (omega (arith, v.base_lt))
  where
    go : (st : List Entry) (n : ℕ) → 0 < length st → 0 < n → base_of (take n st ++ es) ≡ base_of st
    go [] n h k = elim h [ ]
    go (x ∷ st) zero h k = elim k [ ]
    go (x ∷ st) (suc n) h k = refl

saved_log-Persisted :
    (l : RaftLog) (e : Entry) (es later : List Entry) (hs : HardState) (i : ℕ)
    → IsValid l
    → l.unstable.entries ≡ (e ∷ es) ++ later
    → Persisted l (saved_log l (e ∷ es) later hs i) later i
saved_log-Persisted l e es later hs i v tail =
    let whole = saved-view l v e es later tail in
    let len : length (saved_entries l (e ∷ es)) + length later ≡ stop l - base l =
      omega
        (arith, length-append (saved_entries l (e ∷ es)) later, ap length whole, length-view l v) in
    let all : take (l.unstable.offset + suc (length es) - base_of (saved_entries l (e ∷ es)))
          (saved_entries l (e ∷ es))
        ≡ saved_entries l (e ∷ es) =
      take_all _ (saved_entries l (e ∷ es))
        (omega (arith, len, base-saved l (e ∷ es) v, unstable_length l v e es later tail)) in
    record {
      same_view = unfold view in (ap (λ xs. xs ++ later) all ∙ whole);
      saved = whole;
      tail = refl;
      same_commit = refl;
      applied = refl;
    }

-- The loop is between `Ready` and `Advance`: the entries of the `Ready` are unstable, and others may
-- have been appended behind them since.
pub record IsSaving (s : Loop) (e : Entry) (es later : List Entry) : Type 0 where
  pub valid : IsValid s.raft.raft_log
  pub tail : s.raft.raft_log.unstable.entries ≡ (e ∷ es) ++ later
  pub offered : s.rd.entries ≡ e ∷ es
  pub noted_i : s.last_i ≡ (last_entry e es).index
  pub noted_t : s.last_t ≡ (last_entry e es).term
  pub noted : s.has_last ≡ true
  pub hard_pos : 0 < s.prev_hard.commit_index
  pub hard_le : s.prev_hard.commit_index ≤ s.raft.raft_log.commit_index
  pub hard_ge : s.raft.raft_log.apply_index ≤ s.prev_hard.commit_index

-- `Advance` after a `Ready` with entries and a commit index, where since then entries were at most
-- appended to the log, never panics: it saves the entries of the `Ready`, so that storage holds the
-- log up to them, and those that came later stay unstable; the entries of the log are those that
-- they were, and what was committed in the `Ready` counts as applied.
pub on_advance-Persisted :
    (s : Loop) (e : Entry) (es later : List Entry)
    → IsSaving s e es later
    → (s' : Loop) × (on_advance s ≡ ok s')
      × Persisted s.raft.raft_log s'.raft.raft_log later s.prev_hard.commit_index
      × (s'.advancing ≡ false)
unfolding on_advance applied_to set_hard_state
on_advance-Persisted s e es later h =
    let l = s.raft.raft_log in
    (
      record (with_log s (saved_log l (e ∷ es) later s.prev_hard s.prev_hard.commit_index)) {
        has_last = false;
        advancing = false;
      },
      rw (h.noted, h.offered, h.noted_i, h.noted_t)
          (ground (
            arith,
            h.hard_pos,
            h.hard_le,
            h.hard_ge,
            storage_append-saved l h.valid e es later h.tail s.prev_hard,
            stable_to-eq l h.valid e es later h.tail
                (record { hard_state = s.prev_hard; entries = saved_entries l (e ∷ es) })
                s.prev_hard.commit_index,
          )),
      saved_log-Persisted l e es later s.prev_hard s.prev_hard.commit_index h.valid h.tail,
      refl,
    )
