-- ===== src/Lsm/Node/Finding.antt =====
-- The block of a table that has an entry.
use mathlib.Core.List.{append_assoc}
use yukino_go.Base.{
  ℕ, ◌+◌, ◌<◌, ◌≡◌, inl, inr, refl, sym, ap, ◌∙◌, arith, true, false, Bool-cases, List, [], ◌∷◌,
  ◌++◌, map, All, In, In-append, length, length-append, none, some, lookup, insert, lookup-insert,
  nat_eq, nat_beq,
}
use yukino_go.Lsm.Wal.{Kv}
use yukino_go.Lsm.Block.Coded.{last_key}
use yukino_go.Lsm.Table.{Index}
use yukino_go.Lsm.Table.Writing.{put_all}
use yukino_go.Lsm.Node.{bytes_ltb, find_value}
use yukino_go.Lsm.Node.Order.{
  Ascending, Ascending-append, Ascending-In, Ascending-last_key, bytes_ltb_trans, last_key-above,
  find_value-append,
}
use yukino_go.Lsm.Node.Segments.{
  Segment, entries_of, index_of, filter_of, all_entries, all_bytes, Placed,
}

-- The block with an entry, after those whose keys are all below its key.
pub record Found (segments : List Segment) (kv : Kv) : Type 0 where
  pub before : List Segment
  pub segment : Segment
  pub after : List Segment
  pub split : segments ≡ before ++ segment ∷ after
  pub inside : In kv (entries_of segment)
  pub start : List ℕ
  pub ascending : Ascending start (entries_of segment)
  pub low : All (λ i. bytes_ltb i.key kv.key ≡ true) (map index_of before)
  pub high : All (λ i. bytes_ltb i.key kv.key ≡ false) (map index_of (segment ∷ after))

later-high :
    (low key : List ℕ) (ss : List Segment)
    → bytes_ltb low key ≡ false
    → Ascending low (all_entries ss)
    → All (λ i. bytes_ltb i.key key ≡ false) (map index_of ss)
later-high low key [] h a = tt
later-high low key (s ∷ ss) h a =
    let (here, later) = Ascending-append low (entries_of s) (all_entries ss) a in
    let above = last_key-above low s.first s.more here in
    let last = last_key s.first.key s.more in
    let high : bytes_ltb last key ≡ false = elim (Bool-cases (bytes_ltb last key)) [
      | inl k ↦ let bad = bytes_ltb_trans low last key above k in cc
      | inr k ↦ k
    ] in
    (high, later-high last key ss high later)

pub segments-Found :
    (low : List ℕ) (ss : List Segment) (kv : Kv)
    → Ascending low (all_entries ss)
    → In kv (all_entries ss)
    → Found ss kv
segments-Found low [] kv a i = elim i [ ]
segments-Found low (s ∷ ss) kv a i =
    let (here, later) = Ascending-append low (entries_of s) (all_entries ss) a in
    let last = last_key s.first.key s.more in
    elim (In-append kv (entries_of s) (all_entries ss) i) [
      | inl inside ↦
          let high = Ascending-last_key low (entries_of s) kv here inside in
          record {
            before = [];
            segment = s;
            after = ss;
            split = refl;
            inside = inside;
            start = low;
            ascending = here;
            low = tt;
            high = (high, later-high last kv.key ss high later);
          }
      | inr more ↦
          let f = segments-Found last ss kv later more in
          record {
            before = s ∷ f.before;
            segment = f.segment;
            after = f.after;
            split = ap (λ l. s ∷ l) f.split;
            inside = f.inside;
            start = f.start;
            ascending = f.ascending;
            low = (Ascending-In last (all_entries ss) kv later more, f.low);
            high = f.high;
          }
    ]

-- Where a block stands.
pub Placed-offset :
    (n : ℕ) (before after : List Segment) (s : Segment)
    → Placed n (before ++ s ∷ after)
    → s.offset ≡ n + length (all_bytes before)
Placed-offset n [] after s (o, p) = omega (arith, o)
Placed-offset n (x ∷ before) after s (o, p) = omega (
  arith,
  Placed-offset (n + length x.bytes) before after s p,
  length-append x.bytes (all_bytes before),
)

pub all_bytes-split :
    (before after : List Segment) (s : Segment)
    → all_bytes (before ++ s ∷ after) ≡ all_bytes before ++ (s.bytes ++ all_bytes after)
all_bytes-split [] after s = refl
all_bytes-split (x ∷ before) after s =
    ap (λ b. x.bytes ++ b) (all_bytes-split before after s)
    ∙ sym (append_assoc x.bytes (all_bytes before) (s.bytes ++ all_bytes after))

-- The filters of later blocks do not replace one.
lookup-later :
    (n offset : ℕ) (bitmap : List ℕ) (ss : List Segment) (filters : List (ℕ × List ℕ))
    → offset < n
    → Placed n ss
    → lookup offset filters ≡ some bitmap
    → lookup offset (put_all (map filter_of ss) filters) ≡ some bitmap
lookup-later n offset bitmap [] filters lt p e = e
lookup-later n offset bitmap (s ∷ ss) filters lt (o, p) e =
    let other : nat_beq s.offset offset ≡ false = ground arith in
    lookup-later (n + length s.bytes) offset bitmap ss (insert s.offset s.bitmap filters)
      (omega arith) p (lookup-insert s.offset offset s.bitmap filters ∙ rw other e)

pub lookup-filters :
    (n : ℕ) (before after : List Segment) (s : Segment) (filters : List (ℕ × List ℕ))
    → Placed n (before ++ s ∷ after)
    → 0 < length s.bytes
    → lookup s.offset (put_all (map filter_of (before ++ s ∷ after)) filters) ≡ some s.bitmap
lookup-filters n [] after s filters (o, p) some_byte =
    let same : nat_beq s.offset s.offset ≡ true = ground arith in
    lookup-later (n + length s.bytes) s.offset s.bitmap after (insert s.offset s.bitmap filters)
      (omega arith) p (lookup-insert s.offset s.offset s.bitmap filters ∙ rw same refl)
lookup-filters n (x ∷ before) after s filters (o, p) some_byte =
    lookup-filters (n + length x.bytes) before after s (insert x.offset x.bitmap filters) p
      some_byte

-- The block of an entry of the index.
pub index_of-In :
    (i : Index) (ss : List Segment)
    → In i (map index_of ss)
    → (before : List Segment) × (s : Segment) × (after : List Segment) × (ss ≡ before ++ s ∷ after)
      × (index_of s ≡ i)
index_of-In i [] inside = elim inside [ ]
index_of-In i (s ∷ ss) (inl e) = ([], s, ss, refl, e)
index_of-In i (s ∷ ss) (inr inside) =
    let (before, x, after, split, e) = index_of-In i ss inside in
    (s ∷ before, x, after, ap (λ l. s ∷ l) split, e)

-- A key that is not in a table is in none of its blocks.
pub find_value-none :
    (key : List ℕ) (before after : List Segment) (s : Segment)
    → find_value key (all_entries (before ++ s ∷ after)) ≡ none
    → find_value key (entries_of s) ≡ none
find_value-none key [] after s h = (find_value-append key (entries_of s) (all_entries after) h).0
find_value-none key (x ∷ before) after s h =
    find_value-none key before after s
      (find_value-append key (entries_of x) (all_entries (before ++ s ∷ after)) h).1
