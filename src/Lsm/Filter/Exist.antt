-- ===== src/Lsm/Filter/Exist.antt =====
-- A key that was added is found in the bitmap.
use native.Mathlib.Nat.{mod-lt}
use yukino_go.Base.{
  ℕ, zero, suc, ◌+◌, ◌-◌, ◌*◌, ◌/◌, ◌%◌, ◌^◌, ◌≤◌, ◌<◌, ◌≡◌, refl, sym, ap, ◌∙◌, arith, inl, inr,
  Bool, Bool-cases, nat_beq_iff, true, false, some, List, [], ◌∷◌, ◌++◌, In, In-append_left,
  In-append_right, length, set, get_elem?, length-append, length-set, get_elem?-lt,
  get_elem?-set_self, get_elem?-set_ne, get_elem?-append_right, nat_beq, min, max, ok,
}
use yukino_go.Lsm.Filter.{
  BloomFilter, hash_key, delta, has_bit, with_bit, target_bit, exist_from, set_bits, set_keys,
  best_k, zeros, new_bitmap, hash, exist, add,
}

-- A bit that is set is there, and no other is lost.
has_bit-with_bit : (i b : ℕ) → has_bit i (with_bit i b) ≡ true
unfolding has_bit with_bit
has_bit-with_bit zero b = let odd : (b - b % 2 + 1) % 2 ≡ 1 = omega arith in rw odd
has_bit-with_bit (suc i) b =
    let half : (b % 2 + 2 * with_bit i (b / 2)) / 2 ≡ with_bit i (b / 2) = omega arith in
    rw half (has_bit-with_bit i (b / 2))

has_bit-kept : (i j b : ℕ) → has_bit j b ≡ true → has_bit j (with_bit i b) ≡ true
unfolding has_bit with_bit
has_bit-kept zero zero b h = let odd : (b - b % 2 + 1) % 2 ≡ 1 = omega arith in rw odd
has_bit-kept zero (suc j) b h = let half : (b - b % 2 + 1) / 2 ≡ b / 2 = omega arith in rw half h
has_bit-kept (suc i) zero b h =
    let low : (b % 2 + 2 * with_bit i (b / 2)) % 2 ≡ b % 2 = omega arith in rw low h
has_bit-kept (suc i) (suc j) b h =
    let half : (b % 2 + 2 * with_bit i (b / 2)) / 2 ≡ with_bit i (b / 2) = omega arith in
    rw half (has_bit-kept i j (b / 2) h)

abbrev IsOn : List ℕ → ℕ → Type 0
IsOn bitmap bit = (b : ℕ) × (get_elem? bitmap (bit / 8) ≡ some b) × (has_bit (bit % 8) b ≡ true)

-- A bitmap of which `later` keeps what is set, and the bytes from `l` on.
record Grown (l : ℕ) (bitmap later : List ℕ) : Type 0 where
  same_length : length later ≡ length bitmap
  same_end : (j : ℕ) → l ≤ j → get_elem? later j ≡ get_elem? bitmap j
  kept : (bit : ℕ) → IsOn bitmap bit → IsOn later bit

Grown-self : {l : ℕ} {a : List ℕ} → Grown l a a
Grown-self = record { same_length = refl; same_end = λ j h. refl; kept = λ bit h. h }

Grown-trans : {l : ℕ} {a b c : List ℕ} → Grown l a b → Grown l b c → Grown l a c
Grown-trans g h = record {
  same_length = h.same_length ∙ g.same_length;
  same_end = λ j le. h.same_end j le ∙ g.same_end j le;
  kept = λ bit s. h.kept bit (g.kept bit s);
}

-- The bits of a key, from the turn `i` on.
abbrev Covers : ℕ → ℕ → ℕ → ℕ → List ℕ → Type 0
Covers zero i m h bitmap = Unit
Covers (suc n) i m h bitmap =
    ((bit : ℕ) × (target_bit m h i ≡ ok bit) × IsOn bitmap bit) × Covers n (i + 1) m h bitmap

Covers-Grown :
    {l : ℕ} {a b : List ℕ} (n i m h : ℕ) → Grown l a b → Covers n i m h a → Covers n i m h b
Covers-Grown zero i m h g c = tt
Covers-Grown (suc n) i m h g ((bit, e, s), c) =
    ((bit, e, g.kept bit s), Covers-Grown n (i + 1) m h g c)

exist_from-Covers :
    (n i m h : ℕ) (bitmap : List ℕ) → Covers n i m h bitmap → exist_from n i m h bitmap ≡ ok true
unfolding exist_from
exist_from-Covers zero i m h bitmap c = refl
exist_from-Covers (suc n) i m h bitmap ((bit, e, s), c) =
    let (b, there, on) = s in rw (e, there, on) (exist_from-Covers n (i + 1) m h bitmap c)

-- A bit of the bitmap is set.
set-Grown :
    (l bit b : ℕ) (bitmap : List ℕ)
    → bit / 8 < l
    → get_elem? bitmap (bit / 8) ≡ some b
    → bit / 8 < length bitmap
    → Grown l bitmap (set bitmap (bit / 8) (with_bit (bit % 8) b))
      × IsOn (set bitmap (bit / 8) (with_bit (bit % 8) b)) bit
set-Grown l bit b bitmap low there inside =
    let now = get_elem?-set_self bitmap (bit / 8) (with_bit (bit % 8) b) inside in
    (
      record {
        same_length = length-set bitmap (bit / 8) (with_bit (bit % 8) b);
        same_end = λ j le.
            get_elem?-set_ne bitmap (bit / 8) j (with_bit (bit % 8) b) (λ e. absurd (omega arith));
        kept = λ other (old, was, on). elim (Bool-cases (nat_beq (bit / 8) (other / 8))) [
          | inl e ↦
              let same = (nat_beq_iff (bit / 8) (other / 8)).0 e in
              let byte : old ≡ b = cc in
              (
                with_bit (bit % 8) b,
                ap (get_elem? (set bitmap (bit / 8) (with_bit (bit % 8) b))) (sym same) ∙ now,
                has_bit-kept (bit % 8) (other % 8) b (rw byte at on),
              )
          | inr e ↦ (
            old,
            get_elem?-set_ne bitmap (bit / 8) (other / 8) _ (λ same. ground arith) ∙ was,
            on,
          )
        ];
      },
      (with_bit (bit % 8) b, now, has_bit-with_bit (bit % 8) b),
    )

module _ (m : ℕ) (divisor : 0 < m % 2 ^ 32) where
  target_bit-lt : (h i : ℕ) → (bit : ℕ) × (target_bit m h i ≡ ok bit) × (bit < m)
  unfolding target_bit
  target_bit-lt h i =
      let word = (h + i * delta h) % 2 ^ 32 in
      let below = mod-lt word {m = m % 2 ^ 32} divisor in
      let some_bit : nat_beq (m % 2 ^ 32) 0 ≡ false = ground arith in
      (word % (m % 2 ^ 32), rw some_bit, omega arith)

  set_bits-Covers :
      (n i h : ℕ) (bitmap : List ℕ)
      → length bitmap ≡ suc ((m + 7) / 8)
      → (later : List ℕ) × (set_bits n i m h bitmap ≡ ok later)
        × Grown ((m + 7) / 8) bitmap later
        × Covers n i m h later
  unfolding set_bits
  set_bits-Covers zero i h bitmap len = (bitmap, refl, Grown-self, tt)
  set_bits-Covers (suc n) i h bitmap len =
      let (bit, e, low) = target_bit-lt h i in
      let (b, there) = get_elem?-lt bitmap (bit / 8) (omega arith) in
      let (g, on) = set-Grown ((m + 7) / 8) bit b bitmap (omega arith) there (omega arith) in
      let (later, e', g', c) =
        set_bits-Covers n (i + 1) h (set bitmap (bit / 8) (with_bit (bit % 8) b))
          (g.same_length ∙ len) in
      (later, rw (e, there) e', Grown-trans g g', ((bit, e, g'.kept bit on), c))

  set_keys-Covers :
      (k : ℕ) (keys : List ℕ) (bitmap : List ℕ)
      → length bitmap ≡ suc ((m + 7) / 8)
      → (later : List ℕ) × (set_keys k m keys bitmap ≡ ok later)
        × Grown ((m + 7) / 8) bitmap later
        × ((h : ℕ) → In h keys → Covers k 0 m h later)
  unfolding set_keys
  set_keys-Covers k [] bitmap len = (bitmap, refl, Grown-self, λ h none_in. elim none_in [ ])
  set_keys-Covers k (h ∷ keys) bitmap len =
      let (mid, e, g, c) = set_bits-Covers k 0 h bitmap len in
      let (later, e', g', c') = set_keys-Covers k keys mid (g.same_length ∙ len) in
      (
        later,
        rw e e',
        Grown-trans g g',
        λ x i. elim i [
          | inl same ↦ rw (sym same) (Covers-Grown k 0 m h g' c)
          | inr more ↦ c' x more
        ],
      )

-- The filter after these keys.
abbrev pub added : List (List ℕ) → BloomFilter → BloomFilter
added [] bf = bf
added (key ∷ keys) bf = added keys (add key bf)

pub added-m : (keys : List (List ℕ)) (bf : BloomFilter) → (added keys bf).m ≡ bf.m
unfolding add
added-m [] bf = refl
added-m (key ∷ keys) bf = added-m keys (add key bf)

In-added_left :
    (h : ℕ) (keys : List (List ℕ)) (bf : BloomFilter)
    → In h bf.hashed_keys
    → In h (added keys bf).hashed_keys
unfolding add
In-added_left h [] bf i = i
In-added_left h (key ∷ keys) bf i =
    In-added_left h keys (add key bf) (In-append_left h bf.hashed_keys (hash_key key ∷ []) i)

pub In-added :
    (key : List ℕ) (keys : List (List ℕ)) (bf : BloomFilter)
    → In key keys
    → In (hash_key key) (added keys bf).hashed_keys
unfolding add
In-added key [] bf i = elim i [ ]
In-added key (k ∷ keys) bf (inl e) =
    In-added_left (hash_key key) keys (add k bf)
      (In-append_right (hash_key key) bf.hashed_keys (hash_key k ∷ []) (inl (ap hash_key e)))
In-added key (k ∷ keys) bf (inr i) = In-added key keys (add k bf) i

pub In-length : (h : ℕ) (hs : List ℕ) → In h hs → nat_beq (length hs) 0 ≡ false
In-length h [] i = elim i [ ]
In-length h (x ∷ hs) i = ground arith

length-zeros : (n : ℕ) → length (zeros n) ≡ n
length-zeros zero = refl
length-zeros (suc n) = ap suc (length-zeros n)

-- A filter that has a key has a bitmap.
pub hash-length :
    (bf : BloomFilter)
    → 0 < bf.m % 2 ^ 32
    → nat_beq (length bf.hashed_keys) 0 ≡ false
    → (bitmap : List ℕ) × (hash bf ≡ ok bitmap) × (length bitmap ≡ suc ((bf.m + 7) / 8))
unfolding hash best_k new_bitmap
hash-length bf divisor keys =
    let l = (bf.m + 7) / 8 in
    let k = min (max (69 * bf.m / 100 / length bf.hashed_keys % 256) 1) 30 in
    let len : length (zeros l ++ k ∷ []) ≡ suc l =
      omega (arith, length-append (zeros l) (k ∷ []), length-zeros l) in
    let (later, e, g, c) = set_keys-Covers bf.m divisor k bf.hashed_keys (zeros l ++ k ∷ []) len in
    (later, rw keys e, g.same_length ∙ len)

-- A key that is among those added to a new filter of `m` bits, `m` not a multiple of 2^32, is found
-- in the bitmap of that filter, whatever keys the filter that looks for it has.
pub exist-hash :
    (m : ℕ) (keys others : List (List ℕ)) (key : List ℕ)
    → 0 < m % 2 ^ 32
    → In key keys
    → (bitmap : List ℕ) × (hash (added keys (record { m = m; hashed_keys = [] })) ≡ ok bitmap)
      × (exist (some bitmap) key (added others (record { m = m; hashed_keys = [] })) ≡ ok true)
unfolding hash exist best_k new_bitmap
exist-hash m keys others key divisor i =
    let empty : BloomFilter = record { m = m; hashed_keys = [] } in
    let bf = added keys empty in
    let l = (m + 7) / 8 in
    let inside = In-added key keys empty i in
    let nonzero : nat_beq (length bf.hashed_keys) 0 ≡ false =
      In-length (hash_key key) bf.hashed_keys inside in
    let k = min (max (69 * m / 100 / length bf.hashed_keys % 256) 1) 30 in
    let len : length (zeros l ++ k ∷ []) ≡ suc l =
      omega (arith, length-append (zeros l) (k ∷ []), length-zeros l) in
    let (later, e, g, c) = set_keys-Covers m divisor k bf.hashed_keys (zeros l ++ k ∷ []) len in
    let first : l - length (zeros l) ≡ 0 = omega (arith, length-zeros l) in
    let last : get_elem? (zeros l ++ k ∷ []) l ≡ some k =
      get_elem?-append_right (zeros l) (k ∷ []) l (omega (arith, length-zeros l))
      ∙ ap (get_elem? (k ∷ [])) first in
    let long : length later ≡ suc l = g.same_length ∙ len in
    let k_there : get_elem? later (length later - 1) ≡ some k =
      ap (get_elem? later) (omega arith) ∙ g.same_end l (omega arith) ∙ last in
    let some_byte : nat_beq (length later) 0 ≡ false = ground arith in
    (
      later,
      rw (nonzero, added-m keys empty) e,
      rw (some_byte, k_there, added-m others empty)
          (exist_from-Covers k 0 m (hash_key key) later (c (hash_key key) inside)),
    )

-- A bitmap of the right length has an answer for every key.
exist_from-total :
    (n i m h : ℕ) (bitmap : List ℕ)
    → 0 < m % 2 ^ 32
    → length bitmap ≡ suc ((m + 7) / 8)
    → (b : Bool) × (exist_from n i m h bitmap ≡ ok b)
unfolding exist_from
exist_from-total zero i m h bitmap divisor len = (true, refl)
exist_from-total (suc n) i m h bitmap divisor len =
    let (bit, e, low) = target_bit-lt m divisor h i in
    let (byte, there) = get_elem?-lt bitmap (bit / 8) (omega arith) in
    elim (Bool-cases (has_bit (bit % 8) byte)) [
      | inl on ↦
          let (b, more) = exist_from-total n (i + 1) m h bitmap divisor len in
          (b, rw (e, there, on) more)
      | inr off ↦ (false, rw (e, there, off))
    ]

pub exist-total :
    (bf : BloomFilter) (key bitmap : List ℕ)
    → 0 < bf.m % 2 ^ 32
    → length bitmap ≡ suc ((bf.m + 7) / 8)
    → (b : Bool) × (exist (some bitmap) key bf ≡ ok b)
unfolding exist
exist-total bf key bitmap divisor len =
    let some_byte : nat_beq (length bitmap) 0 ≡ false = ground arith in
    let (k, there) = get_elem?-lt bitmap (length bitmap - 1) (omega arith) in
    let (b, e) = exist_from-total k 0 bf.m (hash_key key) bitmap divisor len in
    (b, rw (some_byte, there) e)
