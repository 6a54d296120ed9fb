-- ===== src/Raft/Log/View.antt =====
-- The log as one list of entries, and what keeps its two parts in step.
use mathlib.Core.Path.{subst}
use yukino_go.Base.{
  ℕ, zero, suc, ◌+◌, ◌-◌, ◌≤◌, ◌<◌, ◌≡◌, arith, Option, none, some, List, [], ◌∷◌, ◌++◌, take, drop,
  length, get_elem?, u64, length-append, length-take,
}
use yukino_go.Raft.Model.{Entry}
use yukino_go.Raft.Log.{RaftLog}

-- The index of the first entry of storage, which is a dummy.
abbrev pub base_of : List Entry → ℕ
base_of [] = 0
base_of (e ∷ es) = e.index

abbrev pub base : RaftLog → ℕ
base l = base_of l.storage.entries

-- One past the last index.
abbrev pub stop : RaftLog → ℕ
stop l = l.unstable.offset + length l.unstable.entries

-- The entries from index `base` on: those of storage below the unstable part, then that part.
unfoldable pub view : RaftLog → List Entry
view l = take (l.unstable.offset - base l) l.storage.entries ++ l.unstable.entries

-- The entries are numbered from `i` on.
abbrev pub Numbered : ℕ → List Entry → Type 0
Numbered i [] = Unit {0}
Numbered i (e ∷ es) = (e.index ≡ i) × Numbered (i + 1) es

-- No entry has term 0, which stands for "no entry".
abbrev pub Termed : List Entry → Type 0
Termed [] = Unit {0}
Termed (e ∷ es) = (0 < e.term) × Termed es

pub record IsValid (l : RaftLog) : Type 0 where
  pub nonempty : 0 < length l.storage.entries
  pub numbered : Numbered (base l) l.storage.entries
  pub tail : Numbered l.unstable.offset l.unstable.entries
  pub termed : Termed l.unstable.entries
  pub base_lt : base l < l.unstable.offset
  pub joined : l.unstable.offset ≤ base l + length l.storage.entries
  pub full : length l.unstable.entries ≡ 0 → l.unstable.offset ≡ base l + length l.storage.entries
  pub applied_ge : base l ≤ l.apply_index
  pub applied_le : l.apply_index ≤ l.commit_index
  pub committed : l.commit_index < stop l
  pub room : stop l < u64
  pub storage_room : base l + length l.storage.entries < u64

-- The term at an index, 0 outside the log.
abbrev term_or : Option Entry → ℕ
term_or none = 0
term_or (some e) = e.term

unfoldable pub term_at : RaftLog → ℕ → ℕ
term_at l i = term_or (get_elem? (view l) (i - base l))

pub Numbered-shift : (i j : ℕ) (xs : List Entry) → i ≡ j → Numbered i xs → Numbered j xs
Numbered-shift i j xs e h = subst (λ n. Numbered n xs) e h

pub Numbered-append :
    (i : ℕ) (xs ys : List Entry)
    → Numbered i xs
    → Numbered (i + length xs) ys
    → Numbered i (xs ++ ys)
Numbered-append i [] ys h k = ground arith
Numbered-append i (x ∷ xs) ys h k =
    (h.0, Numbered-append (i + 1) xs ys h.1 (Numbered-shift _ _ ys (omega arith) k))

pub Numbered-take : (n i : ℕ) (xs : List Entry) → Numbered i xs → Numbered i (take n xs)
Numbered-take zero i xs h = tt
Numbered-take (suc n) i [] h = tt
Numbered-take (suc n) i (x ∷ xs) h = (h.0, Numbered-take n (i + 1) xs h.1)

pub Numbered-drop : (n i : ℕ) (xs : List Entry) → Numbered i xs → Numbered (i + n) (drop n xs)
Numbered-drop zero i xs h = Numbered-shift _ _ xs (omega arith) h
Numbered-drop (suc n) i [] h = tt
Numbered-drop (suc n) i (x ∷ xs) h =
    Numbered-shift _ _ (drop n xs) (omega arith) (Numbered-drop n (i + 1) xs h.1)

pub Termed-append : (xs ys : List Entry) → Termed xs → Termed ys → Termed (xs ++ ys)
Termed-append [] ys h k = k
Termed-append (x ∷ xs) ys h k = (h.0, Termed-append xs ys h.1 k)

pub Termed-take : (n : ℕ) (xs : List Entry) → Termed xs → Termed (take n xs)
Termed-take zero xs h = tt
Termed-take (suc n) [] h = tt
Termed-take (suc n) (x ∷ xs) h = (h.0, Termed-take n xs h.1)

pub Termed-drop : (n : ℕ) (xs : List Entry) → Termed xs → Termed (drop n xs)
Termed-drop zero xs h = h
Termed-drop (suc n) [] h = tt
Termed-drop (suc n) (x ∷ xs) h = Termed-drop n xs h.1

pub length-view : (l : RaftLog) → IsValid l → length (view l) ≡ stop l - base l
unfolding view
length-view l v = omega (
  arith,
  v.base_lt,
  v.joined,
  length-append (take (l.unstable.offset - base l) l.storage.entries) l.unstable.entries,
  length-take (l.unstable.offset - base l) l.storage.entries,
)
