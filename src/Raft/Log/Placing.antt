-- ===== src/Raft/Log/Placing.antt =====
-- The entries of a message are put into a log.
use yukino_go.Base.{
  ℕ, zero, suc, ◌+◌, ◌-◌, ◌≤◌, ◌<◌, ◌≡◌, refl, ap, ◌∙◌, arith, some, List, [], ◌∷◌, length,
  get_elem?, take, drop, u64, length-drop, length-take, get_elem?-append_left,
  get_elem?-append_right, get_elem?-take, get_elem?-drop,
}
use native.Mathlib.Decide.{dec_lt}
use yukino_go.Raft.Model.{Entry}
use yukino_go.Raft.Log.{RaftLog}
use yukino_go.Raft.Log.View.{
  base, stop, view, Numbered, Numbered-drop, Termed, Termed-drop, IsValid, term_at, length-view,
}
use yukino_go.Raft.Log.Append.{appended, view-appended, stop-appended, appended-IsValid}
use yukino_go.Raft.Log.Agree.{agree, agree-le, Numbered-get_elem?, term_at-agree, agree-lt-stop}

-- A message whose previous index lies in the log.
pub record IsMessage (l : RaftLog) (i : ℕ) (es : List Entry) : Type 0 where
  pub from_base : base l ≤ i
  pub within : i < stop l
  pub numbered : Numbered (i + 1) es
  pub termed : Termed es
  pub room : i + 1 + length es < u64

-- The log with the entries of the message, whatever its commit index.
pub record HasEntries (l l' : RaftLog) (i : ℕ) (es : List Entry) : Type 0 where
  pub valid : IsValid l'
  pub same_base : base l' ≡ base l
  pub entry_terms : (j : ℕ) (e : Entry) → get_elem? es j ≡ some e → term_at l' (i + 1 + j) ≡ e.term
  pub new_entries :
      (j : ℕ)
      → agree l es ≤ j
      → j < length es
      → get_elem? (view l') (i + 1 + j - base l) ≡ get_elem? es j
  pub cut : agree l es < length es → stop l' ≡ i + 1 + length es
  pub same_view : agree l es ≡ length es → view l' ≡ view l
  pub kept :
      (j : ℕ)
      → base l ≤ j
      → j < i + 1 + agree l es
      → get_elem? (view l') (j - base l) ≡ get_elem? (view l) (j - base l)
  pub kept_committed :
      (j : ℕ)
      → base l ≤ j
      → j ≤ l.commit_index
      → get_elem? (view l') (j - base l) ≡ get_elem? (view l) (j - base l)
  pub reaches : i + length es < stop l'
  pub same_commit : l'.commit_index ≡ l.commit_index

pub get_elem?-bound :
    (xs : List Entry) (j : ℕ) (e : Entry) → get_elem? xs j ≡ some e → j < length xs
get_elem?-bound [] j e h = cc
get_elem?-bound (x ∷ xs) zero e h = omega arith
get_elem?-bound (x ∷ xs) (suc j) e h = ground (arith, get_elem?-bound xs j e h)

pub all_agree-HasEntries :
    (l : RaftLog) (i : ℕ) (es : List Entry)
    → IsValid l
    → IsMessage l i es
    → agree l es ≡ length es
    → HasEntries l l i es
all_agree-HasEntries l i es v m a = record {
  valid = v;
  same_base = refl;
  entry_terms = λ j e h.
      rw (← Numbered-get_elem? (i + 1) j es e m.numbered h)
        (term_at-agree l j es e h (rw a (get_elem?-bound es j e h)));
  new_entries = λ j h k. absurd (omega (arith, a));
  cut = λ less. absurd (omega (arith, a));
  same_view = λ e. refl;
  kept = λ j h k. refl;
  kept_committed = λ j h k. refl;
  reaches = omega (arith, a, agree-lt-stop l i es v m.from_base m.within m.numbered m.termed);
  same_commit = refl;
}

module _ (l : RaftLog) (i : ℕ) (es : List Entry) (v : IsValid l) (m : IsMessage l i es) (e : Entry)
    (rest : List Entry) (d : drop (agree l es) es ≡ e ∷ rest)
    (safe : l.commit_index < i + 1 + agree l es) where
  from_conflict : Numbered (i + 1 + agree l es) (e ∷ rest)
  from_conflict = rw d at (Numbered-drop (agree l es) (i + 1) es m.numbered)

  Termed-rest : Termed (e ∷ rest)
  Termed-rest = rw d at (Termed-drop (agree l es) es m.termed)

  length_rest : suc (length rest) + agree l es ≡ length es
  length_rest = omega (arith, agree-le l es, length-drop (agree l es) es, ap length d)

  pub reach : e.index ≤ stop l
  reach =
      omega
        (arith, from_conflict.0, agree-lt-stop l i es v m.from_base m.within m.numbered m.termed)

  pub after : l.commit_index < e.index
  after = omega (arith, from_conflict.0)

  length_kept : length (take (e.index - base l) (view l)) ≡ e.index - base l
  length_kept =
      omega (arith, length-take (e.index - base l) (view l), length-view l v, reach, v.base_lt)

  kept_below :
      (j : ℕ)
      → base l ≤ j
      → j < i + 1 + agree l es
      → get_elem? (view (appended l e rest)) (j - base l) ≡ get_elem? (view l) (j - base l)
  kept_below j h k = rw (view-appended l e rest v after reach) (
      get_elem?-append_left (take (e.index - base l) (view l)) (e ∷ rest) (j - base l)
        (omega (arith, length_kept, from_conflict.0))
      ∙ get_elem?-take (e.index - base l) (view l) (j - base l) (omega (arith, from_conflict.0)))

  new_entry :
      (j : ℕ)
      → agree l es ≤ j
      → get_elem? (view (appended l e rest)) (i + 1 + j - base l) ≡ get_elem? es j
  new_entry j h =
      let q : i + 1 + j - base l - length (take (e.index - base l) (view l)) ≡ j - agree l es =
        omega (arith, length_kept, from_conflict.0, m.from_base) in
      let r : agree l es + (j - agree l es) ≡ j = omega arith in
      rw (view-appended l e rest v after reach) (
        get_elem?-append_right (take (e.index - base l) (view l)) (e ∷ rest) (i + 1 + j - base l)
          (omega (arith, length_kept, from_conflict.0, m.from_base))
        ∙ rw (q, ← d, get_elem?-drop (agree l es) es (j - agree l es), r) refl)

  pub conflict-HasEntries : HasEntries l (appended l e rest) i es
  unfolding term_at
  conflict-HasEntries = record {
    valid =
        appended-IsValid l e rest v after reach (rw (← from_conflict.0) at from_conflict)
          Termed-rest (omega (arith, length_rest, from_conflict.0, m.room));
    same_base = refl;
    entry_terms = λ j e' h. elim (dec_lt j (agree l es)) [
      | yes k ↦
          rw
            (
              kept_below (i + 1 + j) (omega (arith, m.from_base)) (omega arith),
              ← Numbered-get_elem? (i + 1) j es e' m.numbered h,
            )
            (term_at-agree l j es e' h k)
      | no k ↦ rw (new_entry j (omega arith), h) refl
    ];
    new_entries = λ j h k. new_entry j h;
    cut = λ less. omega (arith, stop-appended l e rest v after reach, length_rest, from_conflict.0);
    same_view = λ same. absurd (omega (arith, length_rest));
    kept = kept_below;
    kept_committed = λ j h k. kept_below j h (omega (arith, safe));
    reaches = omega (arith, stop-appended l e rest v after reach, length_rest, from_conflict.0);
    same_commit = refl;
  }
