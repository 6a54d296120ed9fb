-- ===== src/Lsm/Block/RoundTrip.antt =====
-- What `ReadBlockData` gives of the bytes of a block.
use mathlib.Core.List.{append_assoc, append-nil}
use yukino_go.Base.{
  ℕ, zero, suc, ◌-◌, ◌≤◌, ◌<◌, ◌^◌, ◌≡◌, refl, sym, ap, ◌∙◌, arith, Bool-cases, nat_beq_iff, inl,
  inr, true, List, [], ◌∷◌, ◌++◌, All, length, take, drop, length-append, length-drop, leb, nat_beq,
  ok, take-append-drop, take-append_le,
}
use yukino_go.Lsm.{put_uvarint, read_uvarint, make_read}
use yukino_go.Lsm.Varint.{put_uvarint-some, read_uvarint-put_uvarint, make_read-append}
use yukino_go.Lsm.Wal.{Kv}
use yukino_go.Lsm.Wal.Restore.{IsSized}
use yukino_go.Lsm.Block.{
  Block, new_block, shared_prefix_len, encode_entry, append, read_record, read_records,
  read_block_data,
}

-- The shared prefix is one of both.
shared_prefix_len-le :
    (a b : List ℕ) → (shared_prefix_len a b ≤ length a) × (shared_prefix_len a b ≤ length b)
unfolding shared_prefix_len
shared_prefix_len-le [] b = (omega arith, omega arith)
shared_prefix_len-le (x ∷ a) [] = (omega arith, omega arith)
shared_prefix_len-le (x ∷ a) (y ∷ b) =
    let (p, q) = shared_prefix_len-le a b in
    elim (Bool-cases (nat_beq x y)) [
      | inl e ↦ rw e (omega arith, omega arith)
      | inr e ↦ rw e (omega arith, omega arith)
    ]

take-shared_prefix_len :
    (a b : List ℕ) → take (shared_prefix_len a b) a ≡ take (shared_prefix_len a b) b
unfolding shared_prefix_len
take-shared_prefix_len [] b = refl
take-shared_prefix_len (x ∷ a) [] = refl
take-shared_prefix_len (x ∷ a) (y ∷ b) = elim (Bool-cases (nat_beq x y)) [
  | inl e ↦ let same : x ≡ y = (nat_beq_iff x y).0 e in rw (e, same, take-shared_prefix_len a b)
  | inr e ↦ rw e
]

-- Two keys begin with the same `n` bytes.
abbrev pub IsShared : ℕ → List ℕ → List ℕ → Type 0
IsShared n prev key = (n ≤ length prev) × (n ≤ length key) × (take n prev ≡ take n key)

pub shared_prefix_len-IsShared :
    (prev key : List ℕ) → IsShared (shared_prefix_len prev key) prev key
shared_prefix_len-IsShared prev key =
    let (p, q) = shared_prefix_len-le prev key in (p, q, take-shared_prefix_len prev key)

-- The block after these entries.
abbrev pub appended : List Kv → Block → Block
appended [] b = b
appended (kv ∷ kvs) b = appended kvs (append kv b)

abbrev entries : List ℕ → List Kv → List ℕ
entries prev [] = []
entries prev (kv ∷ kvs) = encode_entry (shared_prefix_len prev kv.key) kv ++ entries kv.key kvs

appended-entries :
    (kvs : List Kv) (b : Block)
    → (appended kvs b).record_bytes ≡ b.record_bytes ++ entries b.prev_key kvs
unfolding append
appended-entries [] b = sym (append-nil b.record_bytes)
appended-entries (kv ∷ kvs) b =
    appended-entries kvs (append kv b)
    ∙ append_assoc b.record_bytes (encode_entry (shared_prefix_len b.prev_key kv.key) kv)
        (entries kv.key kvs)

pub encode_entry-append :
    (shared : ℕ) (kv : Kv) (bs : List ℕ)
    → encode_entry shared kv ++ bs
      ≡ put_uvarint shared
        ++ (put_uvarint (length kv.key - shared)
            ++ (put_uvarint (length kv.value) ++ (drop shared kv.key ++ (kv.value ++ bs))))
encode_entry-append shared kv bs =
    let s = put_uvarint shared in
    let k = put_uvarint (length kv.key - shared) in
    let v = put_uvarint (length kv.value) in
    let d = drop shared kv.key in
    append_assoc (((s ++ k) ++ v) ++ d) kv.value bs
    ∙ append_assoc ((s ++ k) ++ v) d (kv.value ++ bs)
    ∙ append_assoc (s ++ k) v (d ++ (kv.value ++ bs))
    ∙ append_assoc s k (v ++ (d ++ (kv.value ++ bs)))

length-entries : (prev : List ℕ) (kvs : List Kv) → length kvs ≤ length (entries prev kvs)
length-entries prev [] = omega arith
length-entries prev (kv ∷ kvs) =
    let n = shared_prefix_len prev kv.key in
    let s = put_uvarint n in
    let rest =
      put_uvarint (length kv.key - n)
      ++ (put_uvarint (length kv.value) ++ (drop n kv.key ++ (kv.value ++ entries kv.key kvs))) in
    let whole : length (encode_entry n kv ++ entries kv.key kvs) ≡ length (s ++ rest) =
      ap length (encode_entry-append n kv (entries kv.key kvs)) in
    let later = length-entries kv.key kvs in
    let tail : length (entries kv.key kvs) ≤ length rest = omega (
      arith,
      length-append (put_uvarint (length kv.key - n))
          (put_uvarint (length kv.value) ++ (drop n kv.key ++ (kv.value ++ entries kv.key kvs))),
      length-append (put_uvarint (length kv.value))
          (drop n kv.key ++ (kv.value ++ entries kv.key kvs)),
      length-append (drop n kv.key) (kv.value ++ entries kv.key kvs),
      length-append kv.value (entries kv.key kvs),
    ) in
    rw whole (omega (arith, length-append s rest, put_uvarint-some n))

module _ (limit : ℕ) (spare : List ℕ → List ℕ) (word : limit < 2 ^ 64) where
  pub read_record-encode_entry :
      (prev : List ℕ) (n : ℕ) (kv : Kv) (bs : List ℕ)
      → IsShared n prev kv.key
      → IsSized limit kv
      → read_record limit spare prev (encode_entry n kv ++ bs) ≡ ok (kv, bs)
  unfolding read_record
  read_record-encode_entry prev n kv bs (p, q, same) (k, v) =
      let d = drop n kv.key in
      let ld = length-drop n kv.key in
      let r1 = d ++ (kv.value ++ bs) in
      let r2 = put_uvarint (length kv.value) ++ r1 in
      let r3 = put_uvarint (length kv.key - n) ++ r2 in
      let key_read : make_read limit (length kv.key - n) r1 ≡ ok (d, kv.value ++ bs) =
        ap (λ w. make_read limit w r1) (sym ld)
        ∙ make_read-append limit d (kv.value ++ bs) (omega arith) in
      let inside : leb n (length (prev ++ spare prev)) ≡ true =
        ground (arith, length-append prev (spare prev)) in
      let low : leb 0 n ≡ true = ground arith in
      let cut : take (n - 0) (prev ++ spare prev) ≡ take n kv.key =
        ap (λ w. take w (prev ++ spare prev)) (omega arith)
        ∙ take-append_le n prev (spare prev) p
        ∙ same in
      rw (
        encode_entry-append n kv bs,
        read_uvarint-put_uvarint n r3 (omega arith),
        read_uvarint-put_uvarint (length kv.key - n) r2 (omega arith),
        read_uvarint-put_uvarint (length kv.value) r1 (omega arith),
        key_read,
        make_read-append limit kv.value bs v,
        low,
        inside,
        cut,
        take-append-drop n kv.key,
      )

  read_records-entries :
      (kvs : List Kv) (prev : List ℕ) (n : ℕ)
      → length kvs < n
      → All (IsSized limit) kvs
      → read_records limit spare n prev (entries prev kvs) ≡ ok kvs
  unfolding read_records read_record read_uvarint
  read_records-entries kvs prev zero h sized = absurd (omega arith)
  read_records-entries [] prev (suc n) h sized = refl
  read_records-entries (kv ∷ kvs) prev (suc n) h (s, sized) = rw (
    read_record-encode_entry prev (shared_prefix_len prev kv.key) kv (entries kv.key kvs)
        (shared_prefix_len-IsShared prev kv.key) s,
    read_records,
    read_records-entries kvs kv.key n (omega arith) sized,
  )

  -- The entries of a block are read back from its bytes, in the order in which they were appended,
  -- if every key and value fits in a slice.
  pub read_block_data-appended :
      (kvs : List Kv)
      → All (IsSized limit) kvs
      → read_block_data limit spare (appended kvs new_block).record_bytes ≡ ok kvs
  unfolding read_block_data
  read_block_data-appended kvs sized =
      let n = length-entries [] kvs in
      rw (appended-entries kvs new_block)
        (read_records-entries kvs [] (suc (length (entries [] kvs))) (omega arith) sized)
