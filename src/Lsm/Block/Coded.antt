-- ===== src/Lsm/Block/Coded.antt =====
-- Bytes that hold entries, whatever prefixes they share.
use mathlib.Core.List.{append_assoc, append-nil}
use mathlib.Core.Path.{subst, fun_ext}
use yukino_go.Base.{
  ℕ, zero, suc, ◌-◌, ◌≤◌, ◌<◌, ◌^◌, ◌≡◌, refl, sym, ap, ◌∙◌, arith, List, [], ◌∷◌, ◌++◌, All,
  length, drop, length-append, Res, ok, ◌>>=◌,
}
use yukino_go.Lsm.{Error, put_uvarint, read_uvarint}
use yukino_go.Lsm.Varint.{put_uvarint-some}
use yukino_go.Lsm.Wal.{Kv}
use yukino_go.Lsm.Wal.Restore.{IsSized}
use yukino_go.Lsm.Block.{
  Block, shared_prefix_len, encode_entry, append, read_record, read_records, read_block_data,
  fold_records,
}
use yukino_go.Lsm.Block.RoundTrip.{IsShared, shared_prefix_len-IsShared, read_record-encode_entry}

-- After a key, the bytes are those of these entries, one after the other.
abbrev pub Coded : List ℕ → List Kv → List ℕ → Type 0
Coded prev [] bytes = bytes ≡ []
Coded prev (kv ∷ kvs) bytes =
    (n : ℕ) × (rest : List ℕ) × IsShared n prev kv.key
    × (bytes ≡ encode_entry n kv ++ rest)
    × Coded kv.key kvs rest

abbrev pub last_key : List ℕ → List Kv → List ℕ
last_key prev [] = prev
last_key prev (kv ∷ kvs) = last_key kv.key kvs

pub last_key-append :
    (prev : List ℕ) (kvs : List Kv) (kv : Kv) → last_key prev (kvs ++ kv ∷ []) ≡ kv.key
last_key-append prev [] kv = refl
last_key-append prev (x ∷ kvs) kv = last_key-append x.key kvs kv

pub Coded-append :
    (prev : List ℕ) (kvs : List Kv) (bytes : List ℕ) (n : ℕ) (kv : Kv)
    → Coded prev kvs bytes
    → IsShared n (last_key prev kvs) kv.key
    → Coded prev (kvs ++ kv ∷ []) (bytes ++ encode_entry n kv)
Coded-append prev [] bytes n kv c s =
    (n, [], s, ap (λ w. w ++ encode_entry n kv) c ∙ sym (append-nil (encode_entry n kv)), refl)
Coded-append prev (x ∷ kvs) bytes n kv (k, rest, t, e, c) s = (
  k,
  rest ++ encode_entry n kv,
  t,
  ap (λ w. w ++ encode_entry n kv) e ∙ append_assoc (encode_entry k x) rest (encode_entry n kv),
  Coded-append x.key kvs rest n kv c s,
)

-- Every entry takes a byte at least.
length-encode_entry : (n : ℕ) (kv : Kv) → 0 < length (encode_entry n kv)
length-encode_entry n kv =
    let s = put_uvarint n in
    let k = put_uvarint (length kv.key - n) in
    let v = put_uvarint (length kv.value) in
    let d = drop n kv.key in
    omega (
      arith,
      length-append (((s ++ k) ++ v) ++ d) kv.value,
      length-append ((s ++ k) ++ v) d,
      length-append (s ++ k) v,
      length-append s k,
      put_uvarint-some n,
    )

pub length-Coded :
    (prev : List ℕ) (kvs : List Kv) (bytes : List ℕ)
    → Coded prev kvs bytes
    → length kvs ≤ length bytes
length-Coded prev [] bytes c = omega arith
length-Coded prev (kv ∷ kvs) bytes (n, rest, s, e, c) =
    let below = length-Coded kv.key kvs rest c in
    let some_byte = length-encode_entry n kv in
    rw e (omega (arith, length-append (encode_entry n kv) rest))

-- What is done with one entry after the other.
abbrev pub fold_all : {A : Type 0} → (Kv → A → Res Error A) → List Kv → A → Res Error A
fold_all step [] acc = ok acc
fold_all step (kv ∷ kvs) acc = step kv acc >>= fold_all step kvs

module _ (limit : ℕ) (spare : List ℕ → List ℕ) (word : limit < 2 ^ 64) where
  read_records-Coded :
      (kvs : List Kv) (prev bytes : List ℕ) (n : ℕ)
      → length kvs < n
      → All (IsSized limit) kvs
      → Coded prev kvs bytes
      → read_records limit spare n prev bytes ≡ ok kvs
  unfolding read_records read_record read_uvarint
  read_records-Coded kvs prev bytes zero h sized c = absurd (omega arith)
  read_records-Coded [] prev bytes (suc n) h sized c = rw c refl
  read_records-Coded (kv ∷ kvs) prev bytes (suc n) h (z, sized) (k, rest, s, e, c) = rw (
    e,
    read_record-encode_entry limit spare word prev k kv rest s z,
    read_records,
    read_records-Coded kvs kv.key rest n (omega arith) sized c,
  )

  pub read_block_data-Coded :
      (kvs : List Kv) (bytes : List ℕ)
      → All (IsSized limit) kvs
      → Coded [] kvs bytes
      → read_block_data limit spare bytes ≡ ok kvs
  unfolding read_block_data
  read_block_data-Coded kvs bytes sized c =
      read_records-Coded kvs [] bytes (suc (length bytes))
        (omega (arith, length-Coded [] kvs bytes c)) sized c

  pub fold_records-Coded :
      {A : Type 0} (step : Kv → A → Res Error A) (kvs : List Kv) (prev bytes : List ℕ) (n : ℕ)
      (acc : A)
      → length kvs < n
      → All (IsSized limit) kvs
      → Coded prev kvs bytes
      → fold_records limit spare step n prev bytes acc ≡ fold_all step kvs acc
  unfolding fold_records read_record read_uvarint
  fold_records-Coded step kvs prev bytes zero acc h sized c = absurd (omega arith)
  fold_records-Coded step [] prev bytes (suc n) acc h sized c = rw c refl
  fold_records-Coded step (kv ∷ kvs) prev bytes (suc n) acc h (z, sized) (k, rest, s, e, c) =
      rw (e, read_record-encode_entry limit spare word prev k kv rest s z, fold_records)
        (ap (λ f. step kv acc >>= f)
          (fun_ext λ acc'. fold_records-Coded step kvs kv.key rest n acc' (omega arith) sized c))

-- A block that holds these entries.
pub record Holds (b : Block) (kvs : List Kv) : Type 0 where
  pub coded : Coded [] kvs b.record_bytes
  pub last : b.prev_key ≡ last_key [] kvs

pub append-Holds :
    (b : Block) (kvs : List Kv) (kv : Kv) → Holds b kvs → Holds (append kv b) (kvs ++ kv ∷ [])
unfolding append
append-Holds b kvs kv h = record {
  coded = Coded-append [] kvs b.record_bytes (shared_prefix_len b.prev_key kv.key) kv h.coded (
      subst (λ p. IsShared (shared_prefix_len b.prev_key kv.key) p kv.key) h.last
        (shared_prefix_len-IsShared b.prev_key kv.key));
  last = sym (last_key-append [] kvs kv);
}
