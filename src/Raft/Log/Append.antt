-- ===== src/Raft/Log/Append.antt =====
-- Appending to a valid log cuts its view at the first new index and appends there.
use native.Mathlib.Decide.{dec_lt}
use mathlib.Core.List.{append_assoc, append-nil}
use yukino_go.Base.{
  ℕ, suc, ◌+◌, ◌-◌, ◌≤◌, ◌<◌, ◌≡◌, ap, sym, ◌∙◌, arith, min, List, ◌∷◌, ◌++◌, take, length, u64,
  sub64, ok, length-take, length-append, take-append_le, take-append_ge, take-take, take_all,
  take_none,
}
use yukino_go.Raft.Model.{Entry}
use yukino_go.Raft.Unstable.{Unstable, unstable_slice, truncate_and_append}
use yukino_go.Raft.Log.{RaftLog, log_append}
use yukino_go.Raft.Log.View.{
  base, stop, view, Numbered, Numbered-append, Numbered-take, Numbered-shift, Termed, Termed-append,
  Termed-take, IsValid,
}

-- The tail after an append at index `a`.
abbrev cut : Unstable → ℕ → List Entry → Unstable
cut u a es = record { offset = min a u.offset; entries = take (a - u.offset) u.entries ++ es }

unstable_slice-eq :
    (u : Unstable) (a : ℕ)
    → u.offset ≤ a
    → a ≤ u.offset + length u.entries
    → u.offset + length u.entries < u64
    → unstable_slice u u.offset a ≡ ok (take (a - u.offset) u.entries)
unfolding unstable_slice
unstable_slice-eq u a h k b =
    let s : sub64 u.offset u.offset ≡ 0 = omega arith in
    let t : sub64 a u.offset ≡ a - u.offset = omega arith in ground (arith, s, t)

module _ (u : Unstable) (e : Entry) (es : List Entry) where
  truncate_and_append-eq :
      e.index ≤ u.offset + length u.entries
      → u.offset + length u.entries < u64
      → truncate_and_append u (e ∷ es) ≡ ok (cut u e.index (e ∷ es))
  unfolding truncate_and_append
  truncate_and_append-eq h b = ground (
    arith,
    take_all (e.index - u.offset) u.entries,
    take_none (e.index - u.offset) u.entries,
    unstable_slice-eq u e.index,
  )

-- The cut of the view is the view of the cut.
view_parts :
    (st un : List Entry) (b off a : ℕ)
    → b < a
    → b < off
    → off ≤ b + length st
    → take (min a off - b) st ++ take (a - off) un ≡ take (a - b) (take (off - b) st ++ un)
view_parts st un b off a h k j = elim (dec_lt off a) [
  | yes above ↦
      let m : min a off ≡ off = omega arith in
      let d : a - off ≡ a - b - length (take (off - b) st) =
        omega (arith, length-take (off - b) st) in
      rw (m, d)
        (sym
          (take-append_ge (a - b) (take (off - b) st) un (omega (arith, length-take (off - b) st))))
  | no below ↦
      let m : min a off ≡ a = omega arith in
      rw (m, take_none (a - off) un (omega arith), append-nil)
        (sym (
          take-append_le (a - b) (take (off - b) st) un (omega (arith, length-take (off - b) st))
          ∙ take-take (a - b) (off - b) st (omega arith)))
]

kept-Numbered :
    (u : Unstable) (a : ℕ)
    → Numbered u.offset u.entries
    → Numbered (min a u.offset) (take (a - u.offset) u.entries)
kept-Numbered u a h = elim (dec_lt u.offset a) [
  | yes above ↦
      let m : min a u.offset ≡ u.offset = omega arith in
      rw m (Numbered-take (a - u.offset) u.offset u.entries h)
  | no below ↦ rw (take_none (a - u.offset) u.entries (omega arith)) tt
]

-- What an append of `e ∷ es` makes of `l`.
abbrev pub appended : RaftLog → Entry → List Entry → RaftLog
appended l e es = record l { unstable = cut l.unstable e.index (e ∷ es) }

module _ (l : RaftLog) (e : Entry) (es : List Entry) (v : IsValid l)
    (after : l.commit_index < e.index) (reach : e.index ≤ stop l) where
  pub view-appended : view (appended l e es) ≡ take (e.index - base l) (view l) ++ (e ∷ es)
  unfolding view
  view-appended =
      sym (
        append_assoc (take (min e.index l.unstable.offset - base l) l.storage.entries)
          (take (e.index - l.unstable.offset) l.unstable.entries) (e ∷ es))
      ∙ ap (λ xs. xs ++ (e ∷ es))
          (view_parts l.storage.entries l.unstable.entries (base l) l.unstable.offset e.index
            (omega (arith, v.applied_ge, v.applied_le)) v.base_lt v.joined)

  pub stop-appended : stop (appended l e es) ≡ e.index + suc (length es)
  stop-appended = omega (
    arith,
    length-append (take (e.index - l.unstable.offset) l.unstable.entries) (e ∷ es),
    length-take (e.index - l.unstable.offset) l.unstable.entries,
  )

  pub appended-IsValid :
      Numbered e.index (e ∷ es)
      → Termed (e ∷ es)
      → e.index + suc (length es) < u64
      → IsValid (appended l e es)
  appended-IsValid n t b = record {
    nonempty = v.nonempty;
    numbered = v.numbered;
    tail =
        Numbered-append (min e.index l.unstable.offset)
          (take (e.index - l.unstable.offset) l.unstable.entries) (e ∷ es)
          (kept-Numbered l.unstable e.index v.tail)
          (Numbered-shift e.index _ (e ∷ es)
            (omega (arith, length-take (e.index - l.unstable.offset) l.unstable.entries)) n);
    termed = Termed-append _ (e ∷ es) (Termed-take _ l.unstable.entries v.termed) t;
    base_lt = omega (arith, v.base_lt, v.applied_ge, v.applied_le);
    joined = omega (arith, v.joined);
    full = λ z. absurd (omega (arith, stop-appended));
    applied_ge = v.applied_ge;
    applied_le = v.applied_le;
    committed = omega (arith, stop-appended);
    room = omega (arith, stop-appended);
    storage_room = v.storage_room;
  }

  pub log_append-eq : log_append l (e ∷ es) ≡ ok (appended l e es)
  unfolding log_append
  log_append-eq = rw (truncate_and_append-eq l.unstable e es reach v.room) (ground (arith, v.room))
