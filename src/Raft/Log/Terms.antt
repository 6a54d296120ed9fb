-- ===== src/Raft/Log/Terms.antt =====
-- The readers of a valid log compute its view.
use native.Mathlib.Decide.{dec_lt}
use yukino_go.Base.{
  ℕ, zero, suc, ◌+◌, ◌-◌, ◌≤◌, ◌<◌, ◌≡◌, refl, ap, ◌∙◌, arith, none, some, List, [], ◌∷◌, take,
  length, get_elem?, u64, sub64, nat_beq, if◌then◌else◌, ok, length-take, get_elem?-append_left,
  get_elem?-append_right, get_elem?-take, get_elem?-lt, get_elem?-le,
}
use yukino_go.Raft.Model.{Entry}
use yukino_go.Raft.Storage.{
  Storage, offset_of, storage_first_index, storage_last_index, storage_term,
}
use yukino_go.Raft.Unstable.{Unstable, maybe_last_index, maybe_term}
use yukino_go.Raft.Log.{RaftLog, first_index, last_index, log_term, match_term}
use yukino_go.Raft.Log.View.{base_of, base, stop, view, Termed, IsValid, term_at, length-view}

pub offset_of-eq :
    (m : Storage) (xs : List Entry) → m.entries ≡ xs → 0 < length xs → offset_of m ≡ ok (base_of xs)
unfolding offset_of
offset_of-eq m [] e h = elim h [ ]
offset_of-eq m (x ∷ xs) e h = rw e

pub storage_last_index-eq :
    (m : Storage)
    → 0 < length m.entries
    → base_of m.entries + length m.entries < u64
    → storage_last_index m ≡ ok (base_of m.entries + length m.entries - 1)
unfolding storage_last_index
storage_last_index-eq m h k = rw (offset_of-eq m m.entries refl h) (ap ok (omega arith))

maybe_last_index-eq :
    (u : Unstable)
    → u.offset + length u.entries < u64
    → maybe_last_index u
      ≡ (if nat_beq (length u.entries) 0 then none else some (u.offset + length u.entries - 1))
unfolding maybe_last_index
maybe_last_index-eq u h = ground arith

pub first_index-eq : (l : RaftLog) → IsValid l → first_index l ≡ ok (base l + 1)
unfolding first_index storage_first_index
first_index-eq l v =
    rw (offset_of-eq l.storage l.storage.entries refl v.nonempty)
      (ap ok (omega (arith, v.storage_room, v.nonempty)))

-- The last index is the end of the view.
pub last_index-eq : (l : RaftLog) → IsValid l → last_index l ≡ ok (stop l - 1)
unfolding last_index
last_index-eq l v = ground (
  arith,
  maybe_last_index-eq l.unstable v.room,
  storage_last_index-eq l.storage v.nonempty v.storage_room,
  v.full,
)

Termed-get_elem? :
    (xs : List Entry) (k : ℕ) (e : Entry) → Termed xs → get_elem? xs k ≡ some e → 0 < e.term
Termed-get_elem? [] k e h q = cc
Termed-get_elem? (x ∷ xs) zero e h q = ground arith
Termed-get_elem? (x ∷ xs) (suc k) e h q = Termed-get_elem? xs k e h.1 q

-- Below the unstable part the view is storage.
get_elem?-view_stored :
    (l : RaftLog) (i : ℕ)
    → IsValid l
    → base l ≤ i
    → i < l.unstable.offset
    → get_elem? (view l) (i - base l) ≡ get_elem? l.storage.entries (i - base l)
unfolding view
get_elem?-view_stored l i v h k =
    get_elem?-append_left (take (l.unstable.offset - base l) l.storage.entries) l.unstable.entries
      (i - base l)
      (omega (arith, v.joined, length-take (l.unstable.offset - base l) l.storage.entries))
    ∙ get_elem?-take (l.unstable.offset - base l) l.storage.entries (i - base l) (omega arith)

get_elem?-view_unstable :
    (l : RaftLog) (i : ℕ)
    → IsValid l
    → l.unstable.offset ≤ i
    → get_elem? (view l) (i - base l) ≡ get_elem? l.unstable.entries (i - l.unstable.offset)
unfolding view
get_elem?-view_unstable l i v k =
    let len : length (take (l.unstable.offset - base l) l.storage.entries)
        ≡ l.unstable.offset - base l =
      omega (arith, v.joined, length-take (l.unstable.offset - base l) l.storage.entries) in
    get_elem?-append_right (take (l.unstable.offset - base l) l.storage.entries) l.unstable.entries
      (i - base l) (omega (arith, len))
    ∙ ap (get_elem? l.unstable.entries) (omega (arith, len, v.base_lt))

storage_term-eq :
    (m : Storage) (i : ℕ) (e : Entry)
    → 0 < length m.entries
    → base_of m.entries + length m.entries < u64
    → base_of m.entries ≤ i
    → i < base_of m.entries + length m.entries
    → get_elem? m.entries (i - base_of m.entries) ≡ some e
    → storage_term m i ≡ ok e.term
unfolding storage_term
storage_term-eq m i e a b c d q = rw (offset_of-eq m m.entries refl a) (
    let s : sub64 i (base_of m.entries) ≡ i - base_of m.entries = omega arith in
    rw s (ground arith))

maybe_term-below : (u : Unstable) (i : ℕ) → i < u.offset → maybe_term u i ≡ ok none
unfolding maybe_term
maybe_term-below u i h = ground arith

maybe_term-beyond :
    (u : Unstable) (i : ℕ)
    → u.offset + length u.entries < u64
    → u.offset + length u.entries ≤ i
    → maybe_term u i ≡ ok none
unfolding maybe_term
maybe_term-beyond u i b h = ground (arith, maybe_last_index-eq u b)

pub maybe_term-within :
    (u : Unstable) (i : ℕ) (e : Entry)
    → u.offset + length u.entries < u64
    → u.offset ≤ i
    → i < u.offset + length u.entries
    → get_elem? u.entries (i - u.offset) ≡ some e
    → maybe_term u i ≡ ok (some e.term)
unfolding maybe_term
maybe_term-within u i e b h k q =
    let s : sub64 i u.offset ≡ i - u.offset = omega arith in
    ground (arith, maybe_last_index-eq u b, s, q)

module _ (l : RaftLog) (i : ℕ) (v : IsValid l) (h : base l ≤ i) where
  stored_term : i < l.unstable.offset → log_term l i ≡ ok (term_at l i)
  unfolding log_term term_at
  stored_term k =
      let (e, q) = get_elem?-lt l.storage.entries (i - base l) (omega (arith, v.joined)) in
      let q' : get_elem? (view l) (i - base l) ≡ some e = get_elem?-view_stored l i v h k ∙ q in
      let t : storage_term l.storage i ≡ ok e.term =
        storage_term-eq l.storage i e v.nonempty v.storage_room h (omega (arith, v.joined)) q in
      rw (first_index-eq l v, last_index-eq l v, maybe_term-below l.unstable i k, t, q')
        (ground (arith, v.room, v.full, v.joined))

  unstable_term : l.unstable.offset ≤ i → i < stop l → log_term l i ≡ ok (term_at l i)
  unfolding log_term term_at
  unstable_term k b =
      let (e, q) = get_elem?-lt l.unstable.entries (i - l.unstable.offset) (omega arith) in
      let q' : get_elem? (view l) (i - base l) ≡ some e = get_elem?-view_unstable l i v k ∙ q in
      rw (first_index-eq l v, last_index-eq l v, maybe_term-within l.unstable i e v.room k b q, q')
        (ground (arith, v.room, Termed-get_elem? l.unstable.entries _ e v.termed q))

  past_term : stop l ≤ i → log_term l i ≡ ok (term_at l i)
  unfolding log_term term_at
  past_term b =
      let q : get_elem? (view l) (i - base l) ≡ none =
        get_elem?-le (view l) (i - base l) (omega (arith, length-view l v, v.base_lt)) in
      rw (first_index-eq l v, last_index-eq l v, q) (ground (arith, v.room, v.base_lt))

  -- The term of every index from `base` on is the view's, and 0 past its end.
  pub log_term-eq : log_term l i ≡ ok (term_at l i)
  log_term-eq = elim (dec_lt i l.unstable.offset) [
    | yes k ↦ stored_term k
    | no k ↦ elim (dec_lt i (stop l)) [
      | yes b ↦ unstable_term (omega arith) b
      | no b ↦ past_term (omega arith)
    ]
  ]

  pub match_term-eq : (t : ℕ) → match_term l i t ≡ ok (nat_beq (term_at l i) t)
  unfolding match_term
  match_term-eq t = rw log_term-eq
