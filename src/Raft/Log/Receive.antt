-- ===== src/Raft/Log/Receive.antt =====
-- `maybeAppend`: what a follower's log becomes.
use yukino_go.Base.{
  ℕ, ◌+◌, ◌-◌, ◌≤◌, ◌<◌, ◌≡◌, ◌≢◌, refl, arith, min, max, false, none, some, List, [], ◌∷◌, length,
  get_elem?, drop, add64, sub64, nat_beq, ltb, leb, ◌&&◌, ◌⊎◌, inl, inr, Bool-cases, if◌then◌else◌,
  ok, panic, slice, length-drop, drop-cons, take_all,
}
use native.Mathlib.Decide.{dec_lt}
use yukino_go.Raft.Model.{Entry}
use yukino_go.Raft.Storage.{Error}
use yukino_go.Raft.Log.{RaftLog, log_append, append_from, commit_to, maybe_append}
use yukino_go.Raft.Log.View.{base, stop, view, IsValid, term_at}
use yukino_go.Raft.Log.Terms.{last_index-eq, match_term-eq}
use yukino_go.Raft.Log.Append.{appended, log_append-eq}
use yukino_go.Raft.Log.Agree.{agree, agree-le, Numbered-get_elem?, term_at-agree, find_conflict-eq}
use yukino_go.Raft.Log.Placing.{
  IsMessage, HasEntries, get_elem?-bound, all_agree-HasEntries, after, reach, conflict-HasEntries,
}

commit_to-eq :
    (l : RaftLog) (k : ℕ)
    → IsValid l
    → k < stop l
    → commit_to l k ≡ ok (record l { commit_index = max l.commit_index k })
unfolding commit_to
commit_to-eq l k v h = rw (last_index-eq l v) (ground (arith, v.committed))

-- What a follower's log is after it accepts the entries `es` behind index `i`, with the leader's
-- commit index `c`: the entries of the message from the first conflict on, and nothing behind them;
-- or, without a conflict, what it was.
pub record Received (l l' : RaftLog) (i c : ℕ) (es : List Entry) : Type 0 where
  pub valid : IsValid l'
  pub same_base : base l' ≡ base l
  pub entry_terms : (j : ℕ) (e : Entry) → get_elem? es j ≡ some e → term_at l' (i + 1 + j) ≡ e.term
  pub new_entries :
      (j : ℕ)
      → agree l es ≤ j
      → j < length es
      → get_elem? (view l') (i + 1 + j - base l) ≡ get_elem? es j
  pub cut : agree l es < length es → stop l' ≡ i + 1 + length es
  pub same_view : agree l es ≡ length es → view l' ≡ view l
  pub kept :
      (j : ℕ)
      → base l ≤ j
      → j < i + 1 + agree l es
      → get_elem? (view l') (j - base l) ≡ get_elem? (view l) (j - base l)
  pub kept_committed :
      (j : ℕ)
      → base l ≤ j
      → j ≤ l.commit_index
      → get_elem? (view l') (j - base l) ≡ get_elem? (view l) (j - base l)
  pub commit : l'.commit_index ≡ max l.commit_index (min c (i + length es))

commit-Received :
    (l l' : RaftLog) (i c : ℕ) (es : List Entry)
    → HasEntries l l' i es
    → Received l (record l' { commit_index = max l'.commit_index (min c (i + length es)) }) i c es
unfolding term_at view
commit-Received l l' i c es h = record {
  valid = record {
    nonempty = h.valid.nonempty;
    numbered = h.valid.numbered;
    tail = h.valid.tail;
    termed = h.valid.termed;
    base_lt = h.valid.base_lt;
    joined = h.valid.joined;
    full = h.valid.full;
    applied_ge = h.valid.applied_ge;
    applied_le = omega (arith, h.valid.applied_le);
    committed = omega (arith, h.valid.committed, h.reaches);
    room = h.valid.room;
    storage_room = h.valid.storage_room;
  };
  same_base = h.same_base;
  entry_terms = h.entry_terms;
  new_entries = h.new_entries;
  cut = h.cut;
  same_view = h.same_view;
  kept = h.kept;
  kept_committed = h.kept_committed;
  commit = omega (arith, h.same_commit);
}

-- A committed entry has another term than the entry that a message has at its index.
abbrev pub Conflicting : RaftLog → ℕ → List Entry → Type 0
Conflicting l i es =
    (j : ℕ) × (e : Entry) × (get_elem? es j ≡ some e)
    × (term_at l (i + 1 + j) ≢ e.term)
    × (i + 1 + j ≤ l.commit_index)

-- What `maybeAppend` does: it refuses, it panics, or it receives the entries.
abbrev pub IsDecided : RaftLog → (i t c : ℕ) → List Entry → Type 0
IsDecided l i t c es =
    ((term_at l i ≢ t) × (maybe_append l i t c es ≡ ok (l, none)))
    ⊎ (((term_at l i ≡ t) × Conflicting l i es × (maybe_append l i t c es ≡ panic))
        ⊎ ((term_at l i ≡ t)
            × (¬ (Conflicting l i es))
            × ((l' : RaftLog) × (maybe_append l i t c es ≡ ok (l', some (i + length es)))
                × Received l l' i c es)))

agree-differs :
    (l : RaftLog) (es : List Entry)
    → agree l es < length es
    → (e : Entry) × (get_elem? es (agree l es) ≡ some e) × (term_at l e.index ≢ e.term)
unfolding agree
agree-differs l [] k = absurd (omega arith)
agree-differs l (e ∷ es) k = elim (Bool-cases (nat_beq (term_at l e.index) e.term)) [
  | inl same ↦
      let (x, there, other) = agree-differs l es (ground arith) in (x, rw same there, other)
  | inr other ↦ (e, rw other refl, λ same. ground arith)
]

module _ (l : RaftLog) (i t c : ℕ) (es : List Entry) (v : IsValid l) (m : IsMessage l i es) where
  last_new-eq : add64 i (length es) ≡ i + length es
  last_new-eq = omega (arith, m.room)

  -- After the append, whichever branch made it.
  commit_branch :
      (l' : RaftLog)
      → term_at l i ≡ t
      → HasEntries l l' i es
      → append_from l i es (if nat_beq (agree l es) (length es) then 0 else i + 1 + agree l es)
        ≡ ok l'
      → maybe_append l i t c es
        ≡ ok (
          record l' { commit_index = max l'.commit_index (min c (i + length es)) },
          some (i + length es),
        )
  unfolding maybe_append
  commit_branch l' e h q =
      rw
        (
          match_term-eq l i v m.from_base t,
          find_conflict-eq l i es v m.from_base m.numbered,
          q,
          last_new-eq,
          commit_to-eq l' (min c (i + length es)) h.valid (omega (arith, h.reaches)),
        )
        (ground arith)

  append_conflict :
      (e : Entry) (rest : List Entry)
      → agree l es < length es
      → drop (agree l es) es ≡ e ∷ rest
      → l.commit_index < i + 1 + agree l es
      → append_from l i es (if nat_beq (agree l es) (length es) then 0 else i + 1 + agree l es)
        ≡ ok (appended l e rest)
  unfolding append_from
  append_conflict e rest k d safe =
      let b : nat_beq (agree l es) (length es) ≡ false = ground arith in
      let s : sub64 (i + 1 + agree l es) (add64 i 1) ≡ agree l es = omega (arith, m.room) in
      let q : slice {E = Error} es (agree l es) (length es) ≡ ok (e ∷ rest) = ground (
        arith,
        d,
        take_all (length es - agree l es) (drop (agree l es) es),
        length-drop (agree l es) es,
      ) in
      let a : log_append l (e ∷ rest) ≡ ok (appended l e rest) =
        log_append-eq l e rest v (after l i es v m e rest d safe)
          (reach l i es v m e rest d safe) in
      rw (b, s, q, a) (ground arith)

  -- A message to a valid log, with entries numbered from its previous index on, which lies in the
  -- log, and whose entry matches, is accepted, unless it conflicts with a committed entry:
  -- if all its entries have the terms of those in the log, the log stays; otherwise, from the first
  -- entry that differs on, the log is the entries of the message, whole, and ends with them. What was
  -- committed is unchanged, and so is everything before the first conflict; the commit index rises to
  -- the leader's, as far as the message reaches.
  pub maybe_append-Received :
      term_at l i ≡ t
      → (agree l es < length es → l.commit_index < i + 1 + agree l es)
      → (l' : RaftLog) × (maybe_append l i t c es ≡ ok (l', some (i + length es)))
        × Received l l' i c es
  maybe_append-Received e safe = elim (dec_lt (agree l es) (length es)) [
    | yes k ↦
        let (x, rest, d) = drop-cons (agree l es) es k in
        let h : HasEntries l (appended l x rest) i es =
          conflict-HasEntries l i es v m x rest d (safe k) in
        (
          _,
          commit_branch (appended l x rest) e h (append_conflict x rest k d (safe k)),
          commit-Received l (appended l x rest) i c es h,
        )
    | no k ↦
        let h : HasEntries l l i es =
          all_agree-HasEntries l i es v m (omega (arith, agree-le l es)) in
        (
          _,
          commit_branch l e h (unfold append_from in ground (arith, agree-le l es)),
          commit-Received l l i c es h,
        )
  ]

  append_panics :
      term_at l i ≡ t
      → agree l es < length es
      → i + 1 + agree l es ≤ l.commit_index
      → maybe_append l i t c es ≡ panic
  unfolding maybe_append append_from
  append_panics e k h =
      rw (match_term-eq l i v m.from_base t, find_conflict-eq l i es v m.from_base m.numbered)
        (ground arith)

  append_none : term_at l i ≢ t → maybe_append l i t c es ≡ ok (l, none)
  unfolding maybe_append
  append_none h = rw (match_term-eq l i v m.from_base t) (ground arith)

  committed_differs :
      agree l es < length es → i + 1 + agree l es ≤ l.commit_index → Conflicting l i es
  committed_differs k h =
      let (e, there, other) = agree-differs l es k in
      let at : e.index ≡ i + 1 + agree l es =
        Numbered-get_elem? (i + 1) (agree l es) es e m.numbered there in
      (agree l es, e, there, rw at at other, h)

  committed_agrees :
      (agree l es < length es → l.commit_index < i + 1 + agree l es)
      → (j : ℕ) (e : Entry) → get_elem? es j ≡ some e
      → i + 1 + j ≤ l.commit_index
      → term_at l (i + 1 + j) ≡ e.term
  committed_agrees safe j e there low =
      let before : j < agree l es = elim (dec_lt (agree l es) (length es)) [
        | yes k ↦ omega (arith, safe k)
        | no k ↦ omega (arith, get_elem?-bound es j e there)
      ] in
      rw (← Numbered-get_elem? (i + 1) j es e m.numbered there)
        (term_at-agree l j es e there before)

  -- A message to a valid log, with entries numbered from its previous index on, which lies in the
  -- log, is refused, and nothing changes, if the log has another term there. If it has the same, and a committed entry has another term than the message
  -- has at its index, the node panics; if none has, the log receives the entries.
  pub maybe_append-IsDecided : IsDecided l i t c es
  maybe_append-IsDecided = elim (Bool-cases (nat_beq (term_at l i) t)) [
    | inr other ↦
        let differs : term_at l i ≢ t = λ e. ground arith in inl (differs, append_none differs)
    | inl same ↦
        let e : term_at l i ≡ t = ground arith in
        elim (Bool-cases
          (ltb (agree l es) (length es) && leb (i + 1 + agree l es) l.commit_index)) [
            | inl bad ↦
                let k : agree l es < length es = ground arith in
                let low : i + 1 + agree l es ≤ l.commit_index = ground arith in
                inr (inl (e, committed_differs k low, append_panics e k low))
            | inr good ↦
                let safe : agree l es < length es → l.commit_index < i + 1 + agree l es =
                  λ k. ground arith in
                inr (
                  inr (
                    e,
                    λ (j, x, there, other, low). other (committed_agrees safe j x there low),
                    maybe_append-Received e safe,
                  ))
          ]
  ]
