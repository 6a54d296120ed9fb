-- ===== src/Lsm/Node/Order.antt =====
-- The order of keys, and of the entries of a table.
use mathlib.Core.Path.{subst}
use yukino_go.Base.{
  ℕ, ◌≡◌, inl, inr, refl, sym, ap, arith, true, false, Bool-cases, none, some, List, [], ◌∷◌, ◌++◌,
  In, ltb, bytes_beq, bytes_beq_iff,
}
use yukino_go.Lsm.Wal.{Kv}
use yukino_go.Lsm.Block.Coded.{last_key}
use yukino_go.Lsm.Node.{bytes_ltb, find_value}

pub bytes_ltb_irrefl : (a : List ℕ) → bytes_ltb a a ≡ false
unfolding bytes_ltb
bytes_ltb_irrefl [] = refl
bytes_ltb_irrefl (x ∷ a) = let e : ltb x x ≡ false = ground arith in rw (e, bytes_ltb_irrefl a)

pub bytes_ltb_trans :
    (a b c : List ℕ) → bytes_ltb a b ≡ true → bytes_ltb b c ≡ true → bytes_ltb a c ≡ true
unfolding bytes_ltb
bytes_ltb_trans [] [] c h k = cc
bytes_ltb_trans [] (y ∷ b) [] h k = cc
bytes_ltb_trans [] (y ∷ b) (z ∷ c) h k = refl
bytes_ltb_trans (x ∷ a) [] c h k = cc
bytes_ltb_trans (x ∷ a) (y ∷ b) [] h k = cc
bytes_ltb_trans (x ∷ a) (y ∷ b) (z ∷ c) h k = ground (arith, bytes_ltb_trans a b c)

pub bytes_ltb_asym : (a b : List ℕ) → bytes_ltb a b ≡ true → bytes_ltb b a ≡ false
bytes_ltb_asym a b h = elim (Bool-cases (bytes_ltb b a)) [
  | inl k ↦ let bad = bytes_ltb_trans a b a h k in let no = bytes_ltb_irrefl a in cc
  | inr k ↦ k
]

-- Entries with ascending keys, above a key.
abbrev pub Ascending : List ℕ → List Kv → Type 0
Ascending low [] = Unit
Ascending low (kv ∷ kvs) = (bytes_ltb low kv.key ≡ true) × Ascending kv.key kvs

pub Ascending-append :
    (low : List ℕ) (xs ys : List Kv)
    → Ascending low (xs ++ ys)
    → Ascending low xs × Ascending (last_key low xs) ys
Ascending-append low [] ys h = (tt, h)
Ascending-append low (x ∷ xs) ys (l, h) = let (a, b) = Ascending-append x.key xs ys h in ((l, a), b)

pub Ascending-In :
    (low : List ℕ) (xs : List Kv) (kv : Kv)
    → Ascending low xs
    → In kv xs
    → bytes_ltb low kv.key ≡ true
Ascending-In low [] kv h i = elim i [ ]
Ascending-In low (x ∷ xs) kv (l, h) (inl e) = rw (sym e) l
Ascending-In low (x ∷ xs) kv (l, h) (inr i) =
    bytes_ltb_trans low x.key kv.key l (Ascending-In x.key xs kv h i)

pub last_key-above :
    (low : List ℕ) (y : Kv) (xs : List Kv)
    → Ascending low (y ∷ xs)
    → bytes_ltb low (last_key low (y ∷ xs)) ≡ true
last_key-above low y [] (l, h) = l
last_key-above low y (z ∷ xs) (l, h) =
    bytes_ltb_trans low y.key (last_key y.key (z ∷ xs)) l (last_key-above y.key z xs h)

-- No key is above the last one.
pub Ascending-last_key :
    (low : List ℕ) (xs : List Kv) (kv : Kv)
    → Ascending low xs
    → In kv xs
    → bytes_ltb (last_key low xs) kv.key ≡ false
Ascending-last_key low [] kv h i = elim i [ ]
Ascending-last_key low (x ∷ []) kv h (inl e) = rw (sym e) (bytes_ltb_irrefl x.key)
Ascending-last_key low (x ∷ []) kv h (inr i) = elim i [ ]
Ascending-last_key low (x ∷ y ∷ xs) kv (l, h) (inl e) =
    rw (sym e) (bytes_ltb_asym x.key (last_key x.key (y ∷ xs)) (last_key-above x.key y xs h))
Ascending-last_key low (x ∷ y ∷ xs) kv (l, h) (inr i) = Ascending-last_key x.key (y ∷ xs) kv h i

pub find_value-In :
    (low : List ℕ) (xs : List Kv) (kv : Kv)
    → Ascending low xs
    → In kv xs
    → find_value kv.key xs ≡ some kv.value
unfolding find_value
find_value-In low [] kv h i = elim i [ ]
find_value-In low (x ∷ xs) kv (l, h) (inl e) =
    let same : bytes_beq x.key kv.key ≡ true = (bytes_beq_iff x.key kv.key).1 (ap (λ y. y.key) e) in
    rw (same, e)
find_value-In low (x ∷ xs) kv (l, h) (inr i) = elim (Bool-cases (bytes_beq x.key kv.key)) [
  | inl e ↦
      let same = (bytes_beq_iff x.key kv.key).0 e in
      let less = Ascending-In x.key xs kv h i in
      let bad : bytes_ltb kv.key kv.key ≡ true = subst (λ k. bytes_ltb k kv.key ≡ true) same less in
      let no = bytes_ltb_irrefl kv.key in cc
  | inr e ↦ rw e (find_value-In x.key xs kv h i)
]

-- What is found is the value of an entry.
pub find_value-some :
    (key : List ℕ) (xs : List Kv) (value : List ℕ)
    → find_value key xs ≡ some value
    → (kv : Kv) × In kv xs × (kv.key ≡ key) × (kv.value ≡ value)
unfolding find_value
find_value-some key [] value h = cc
find_value-some key (x ∷ xs) value h = elim (Bool-cases (bytes_beq x.key key)) [
  | inl e ↦
      let found : some x.value ≡ some value = rw e at h in
      (x, inl refl, (bytes_beq_iff x.key key).0 e, cc)
  | inr e ↦ let (kv, i, same, v) = find_value-some key xs value (rw e at h) in (kv, inr i, same, v)
]

pub find_value-append :
    (key : List ℕ) (xs ys : List Kv)
    → find_value key (xs ++ ys) ≡ none
    → (find_value key xs ≡ none) × (find_value key ys ≡ none)
unfolding find_value
find_value-append key [] ys h = (refl, h)
find_value-append key (x ∷ xs) ys h = elim (Bool-cases (bytes_beq x.key key)) [
  | inl e ↦ let bad : some x.value ≡ none = rw e at h in cc
  | inr e ↦ let (l, r) = find_value-append key xs ys (rw e at h) in (rw e l, r)
]
