-- ===== src/Cache/Ring/Successor.antt =====
-- What the search of the ring finds, as a property that does not depend on the order of the keys.
use yukino_go.Base.{
  ℕ, ◌≤◌, ◌<◌, ◌≡◌, ◌⊎◌, inl, inr, refl, ap, ◌∙◌, arith, none, some, List, [], ◌∷◌, leb, leb→le,
  Bool-cases, In, All, Option-cases,
}
use yukino_go.Cache.Ring.{insert_asc, sort_asc, search, successor}

abbrev pub IsSorted : List ℕ → Type 0
IsSorted [] = Unit
IsSorted (k ∷ keys) = All (λ x. k ≤ x) keys × IsSorted keys

-- `k` is the least key from `hash` on; where all keys are below `hash`, it is the least of all.
pub data IsNext (hash : ℕ) (keys : List ℕ) (k : ℕ) : Type 0 where
  ahead : In k keys → hash ≤ k → ((x : ℕ) → In x keys → hash ≤ x → k ≤ x) → IsNext hash keys k
  around :
      In k keys
      → ((x : ℕ) → In x keys → x < hash)
      → ((x : ℕ) → In x keys → k ≤ x)
      → IsNext hash keys k

pub IsNext-In : {hash : ℕ} {keys : List ℕ} {k : ℕ} → IsNext hash keys k → In k keys
IsNext-In (ahead m h l) = m
IsNext-In (around m h l) = m

pub IsNext-unique :
    {hash : ℕ} {keys : List ℕ} {j k : ℕ} → IsNext hash keys j → IsNext hash keys k → j ≡ k
IsNext-unique {hash} {keys} {j} {k} (ahead m h l) (ahead m' h' l') =
    omega (arith, l k m' h', l' j m h)
IsNext-unique {hash} {keys} {j} {k} (ahead m h l) (around m' h' l') = absurd (omega (arith, h' j m))
IsNext-unique {hash} {keys} {j} {k} (around m h l) (ahead m' h' l') = absurd (omega (arith, h k m'))
IsNext-unique {hash} {keys} {j} {k} (around m h l) (around m' h' l') = omega (arith, l k m', l' j m)

pub All-le : (b : ℕ) (keys : List ℕ) (x : ℕ) → All (λ y. b ≤ y) keys → In x keys → b ≤ x
All-le b [] x h m = absurd m
All-le b (k ∷ keys) x h (inl e) = omega arith
All-le b (k ∷ keys) x h (inr m) = All-le b keys x h.1 m

search-none : (hash : ℕ) (keys : List ℕ) → search hash keys ≡ none → (x : ℕ) → In x keys → x < hash
unfolding search
search-none hash [] h x m = absurd m
search-none hash (k ∷ keys) h x m = elim (Bool-cases (leb hash k)) [
  | inl found ↦ cc
  | inr past ↦ elim m [
    | inl e ↦ ground arith
    | inr below ↦ search-none hash keys (rw past at h) x below
  ]
]

search-some :
    (hash : ℕ) (keys : List ℕ) (k : ℕ)
    → IsSorted keys
    → search hash keys ≡ some k
    → In k keys × (hash ≤ k) × ((x : ℕ) → In x keys → hash ≤ x → k ≤ x)
unfolding search
search-some hash [] k s h = cc
search-some hash (x ∷ keys) k s h = elim (Bool-cases (leb hash x)) [
  | inl found ↦
      let e : x ≡ k = ground arith in
      (
        inl e,
        ground arith,
        λ y m q. elim m [
          | inl same ↦ omega arith
          | inr below ↦ omega (arith, All-le x keys y s.0 below)
        ],
      )
  | inr past ↦
      let (m, q, least) = search-some hash keys k s.1 (rw past at h) in
      (
        inr m,
        q,
        λ y m' q'. elim m' [ inl same ↦ absurd (ground arith) | inr below ↦ least y below q' ],
      )
]

-- On sorted keys, the search finds the next key.
pub successor-IsNext :
    (hash : ℕ) (keys : List ℕ) (k : ℕ)
    → IsSorted keys
    → successor hash keys ≡ some k
    → IsNext hash keys k
unfolding successor
successor-IsNext hash [] k s h = cc
successor-IsNext hash (x ∷ keys) k s h = elim (Option-cases (search hash (x ∷ keys))) [
  | inl no_more ↦
      let e : x ≡ k = ground arith in
      around (inl e) (search-none hash (x ∷ keys) no_more) (λ y m. elim m [
        | inl same ↦ omega arith
        | inr below ↦ omega (arith, All-le x keys y s.0 below)
      ])
  | inr (found, is) ↦
      let e : found ≡ k = ground arith in
      let (m, q, least) = search-some hash (x ∷ keys) k s (is ∙ ap some e) in ahead m q least
]

pub successor_total :
    (hash : ℕ) (keys : List ℕ) (x : ℕ) → In x keys → (k : ℕ) × (successor hash keys ≡ some k)
unfolding successor
successor_total hash [] x h = absurd h
successor_total hash (y ∷ keys) x h = elim (Option-cases (search hash (y ∷ keys))) [
  | inl no_more ↦ (y, rw (no_more, successor))
  | inr (found, is) ↦ (found, rw (is, successor))
]

-- Sorting.
In-insert_asc : (k x : ℕ) (keys : List ℕ) → In x (insert_asc k keys) → (k ≡ x) ⊎ In x keys
unfolding insert_asc
In-insert_asc k x [] (inl e) = inl e
In-insert_asc k x [] (inr m) = absurd m
In-insert_asc k x (y ∷ keys) h = elim (Bool-cases (leb k y)) [
  | inl low ↦ let h' : In x (k ∷ y ∷ keys) = rw low at h in h'
  | inr high ↦
      let h' : (y ≡ x) ⊎ In x (insert_asc k keys) = rw high at h in
      elim h' [
        | inl e ↦ inr (inl e)
        | inr m ↦ elim (In-insert_asc k x keys m) [ inl e ↦ inl e | inr below ↦ inr (inr below) ]
      ]
]

insert_asc-In : (k x : ℕ) (keys : List ℕ) → (k ≡ x) ⊎ In x keys → In x (insert_asc k keys)
unfolding insert_asc
insert_asc-In k x [] h = h
insert_asc-In k x (y ∷ keys) h = elim (Bool-cases (leb k y)) [
  | inl low ↦ rw low h
  | inr high ↦ rw high (elim h [
    | inl e ↦ inr (insert_asc-In k x keys (inl e))
    | inr (inl e) ↦ inl e
    | inr (inr m) ↦ inr (insert_asc-In k x keys (inr m))
  ])
]

pub In-sort_asc : (x : ℕ) (keys : List ℕ) → In x (sort_asc keys) → In x keys
unfolding sort_asc
In-sort_asc x [] h = h
In-sort_asc x (k ∷ keys) h = elim (In-insert_asc k x (sort_asc keys) h) [
  | inl e ↦ inl e
  | inr m ↦ inr (In-sort_asc x keys m)
]

pub sort_asc-In : (x : ℕ) (keys : List ℕ) → In x keys → In x (sort_asc keys)
unfolding sort_asc
sort_asc-In x [] h = h
sort_asc-In x (k ∷ keys) (inl e) = insert_asc-In k x (sort_asc keys) (inl e)
sort_asc-In x (k ∷ keys) (inr m) = insert_asc-In k x (sort_asc keys) (inr (sort_asc-In x keys m))

pub In-All : (b : ℕ) (keys : List ℕ) → ((x : ℕ) → In x keys → b ≤ x) → All (λ y. b ≤ y) keys
In-All b [] h = tt
In-All b (k ∷ keys) h = (h k (inl refl), In-All b keys (λ x m. h x (inr m)))

insert_asc-IsSorted : (k : ℕ) (keys : List ℕ) → IsSorted keys → IsSorted (insert_asc k keys)
unfolding insert_asc
insert_asc-IsSorted k [] s = (tt, tt)
insert_asc-IsSorted k (y ∷ keys) s = elim (Bool-cases (leb k y)) [
  | inl low ↦ rw low (
    (ground arith, In-All k keys (λ x m. omega (arith, leb→le k y low, All-le y keys x s.0 m))),
    s,
  )
  | inr high ↦ rw high (
    In-All y (insert_asc k keys) (λ x m. elim (In-insert_asc k x keys m) [
      | inl e ↦ ground arith
      | inr below ↦ All-le y keys x s.0 below
    ]),
    insert_asc-IsSorted k keys s.1,
  )
]

pub sort_asc-IsSorted : (keys : List ℕ) → IsSorted (sort_asc keys)
unfolding sort_asc
sort_asc-IsSorted [] = tt
sort_asc-IsSorted (k ∷ keys) = insert_asc-IsSorted k (sort_asc keys) (sort_asc-IsSorted keys)
