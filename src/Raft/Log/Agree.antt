-- ===== src/Raft/Log/Agree.antt =====
-- How far the entries of a message agree with a log.
use native.Mathlib.Decide.{dec_lt}
use yukino_go.Base.{
  ℕ, zero, suc, ◌+◌, ◌-◌, ◌≤◌, ◌<◌, ◌≡◌, refl, arith, inl, inr, Bool-cases, some, List, [], ◌∷◌,
  length, get_elem?, nat_beq, if◌then◌else◌, ok, get_elem?-le,
}
use yukino_go.Raft.Model.{Entry}
use yukino_go.Raft.Log.{RaftLog, find_conflict}
use yukino_go.Raft.Log.View.{base, stop, view, Numbered, Termed, IsValid, term_at, length-view}
use yukino_go.Raft.Log.Terms.{match_term-eq}

-- The number of leading entries whose term the log has at their index.
unfoldable pub agree : RaftLog → List Entry → ℕ
agree l [] = 0
agree l (e ∷ es) = if nat_beq (term_at l e.index) e.term then suc (agree l es) else 0

pub agree-le : (l : RaftLog) (es : List Entry) → agree l es ≤ length es
unfolding agree
agree-le l [] = omega arith
agree-le l (e ∷ es) = ground (arith, agree-le l es)

pub Numbered-get_elem? :
    (a j : ℕ) (es : List Entry) (e : Entry)
    → Numbered a es
    → get_elem? es j ≡ some e
    → e.index ≡ a + j
Numbered-get_elem? a j [] e n h = cc
Numbered-get_elem? a zero (x ∷ es) e n h = ground arith
Numbered-get_elem? a (suc j) (x ∷ es) e n h = omega (arith, Numbered-get_elem? (a + 1) j es e n.1 h)

pub term_at-agree :
    (l : RaftLog) (j : ℕ) (es : List Entry) (e : Entry)
    → get_elem? es j ≡ some e
    → j < agree l es
    → term_at l e.index ≡ e.term
unfolding agree
term_at-agree l j [] e h k = cc
term_at-agree l zero (x ∷ es) e h k = ground arith
term_at-agree l (suc j) (x ∷ es) e h k = ground (arith, term_at-agree l j es e h)

-- An index with a term is in the log.
pub lt-stop : (l : RaftLog) (j : ℕ) → IsValid l → base l ≤ j → 0 < term_at l j → j < stop l
unfolding term_at
lt-stop l j v h k = elim (dec_lt j (stop l)) [
  | yes p ↦ p
  | no p ↦ absurd (ground (arith, get_elem?-le (view l) (j - base l), length-view l v, v.base_lt))
]

pub agree-lt-stop :
    (l : RaftLog) (i : ℕ) (es : List Entry)
    → IsValid l
    → base l ≤ i
    → i < stop l
    → Numbered (i + 1) es
    → Termed es
    → i + agree l es < stop l
unfolding agree
agree-lt-stop l i [] v h k n t = omega arith
agree-lt-stop l i (e ∷ es) v h k n t = elim (Bool-cases (nat_beq (term_at l e.index) e.term)) [
  | inl same ↦
      let p : i + 1 < stop l =
        rw (← n.0) (lt-stop l e.index v (omega (arith, n.0)) (ground (arith, t.0))) in
      let q : i + 1 + agree l es < stop l = agree-lt-stop l (i + 1) es v (omega arith) p n.1 t.1 in
      rw same (omega arith)
  | inr other ↦ rw other (omega arith)
]

-- The conflict is the first entry that does not agree.
pub find_conflict-eq :
    (l : RaftLog) (i : ℕ) (es : List Entry)
    → IsValid l
    → base l ≤ i
    → Numbered (i + 1) es
    → find_conflict l es ≡ ok (if nat_beq (agree l es) (length es) then 0 else i + 1 + agree l es)
unfolding find_conflict agree
find_conflict-eq l i [] v h n = refl
find_conflict-eq l i (e ∷ es) v h n =
    rw
      (
        match_term-eq l e.index v (omega (arith, n.0)) e.term,
        find_conflict-eq l (i + 1) es v (omega arith) n.1,
      )
      (ground arith)
