-- ===== src/Lsm/Wal/Restore.antt =====
-- What `readAll` gives of what `Write` left in the file.
use mathlib.Core.List.{append_assoc, append-nil}
use yukino_go.Base.{
  ℕ, zero, suc, ◌+◌, ◌≤◌, ◌<◌, ◌^◌, ◌≡◌, ◌≢◌, ◌⊎◌, refl, sym, ap, ◌∙◌, arith, inl, inr, Option,
  none, some, List, [], ◌∷◌, ◌++◌, All, length, take, drop, length-append, ok, err, panic, ◌>>=◌,
  >>=-eq-ok, take-append-drop, length-drop, length-take, take_all,
}
use yukino_go.Lsm.{
  Error, eof, unexpected_eof, overflow, short_write, foreign, Read, put_uvarint, read_uvarint,
}
use yukino_go.Lsm.Varint.{
  put_uvarint-some, read_uvarint-put_uvarint, make_read-append, Extends, >>=-Extends,
  read_uvarint-Extends, make_read-Extends, ok-Extends, read_uvarint-eof,
}
use yukino_go.Lsm.Wal.{Kv, encode_kv, write, read_rest, read_loop, read_all}

-- One turn of the loop.
abbrev read_one : ℕ → List ℕ → Read Kv
read_one limit bs = read_uvarint bs >>= λ (key_len, bs'). read_rest limit key_len bs'

read_one-Extends : (limit : ℕ) → Extends (read_one limit)
unfolding read_rest
read_one-Extends limit = >>=-Extends read_uvarint-Extends (λ k.
    >>=-Extends read_uvarint-Extends (λ v.
      >>=-Extends (make_read-Extends limit k)
        (λ key. >>=-Extends (make_read-Extends limit v) (λ value. ok-Extends))))

-- A key and a value that a slice can hold.
abbrev pub IsSized : ℕ → Kv → Type 0
IsSized limit kv = (length kv.key ≤ limit) × (length kv.value ≤ limit)

-- The file after these writes, all of which succeeded.
abbrev pub written : List Kv → List ℕ → List ℕ
written [] file = file
written (kv ∷ kvs) file = written kvs ((write (length (encode_kv kv)) none kv file).0)

abbrev records : List Kv → List ℕ
records [] = []
records (kv ∷ kvs) = encode_kv kv ++ records kvs

written-records : (kvs : List Kv) (file : List ℕ) → written kvs file ≡ file ++ records kvs
unfolding write
written-records [] file = sym (append-nil file)
written-records (kv ∷ kvs) file =
    let all = take_all (length (encode_kv kv)) (encode_kv kv) (omega arith) in
    rw all
      (written-records kvs (file ++ encode_kv kv) ∙ append_assoc file (encode_kv kv) (records kvs))

append_empty : (xs ys : List ℕ) → xs ++ ys ≡ [] → ys ≡ []
append_empty [] ys h = h
append_empty (x ∷ xs) ys h = cc

encode_kv-append :
    (kv : Kv) (bs : List ℕ)
    → encode_kv kv ++ bs
      ≡ put_uvarint (length kv.key)
        ++ (put_uvarint (length kv.value) ++ (kv.key ++ (kv.value ++ bs)))
encode_kv-append kv bs =
    let k = put_uvarint (length kv.key) in
    let v = put_uvarint (length kv.value) in
    append_assoc ((k ++ v) ++ kv.key) kv.value bs
    ∙ append_assoc (k ++ v) kv.key (kv.value ++ bs)
    ∙ append_assoc k v (kv.key ++ (kv.value ++ bs))

write-file :
    (n : ℕ) (failure : Option Error) (kv : Kv) (file : List ℕ)
    → (write n failure kv file).0 ≡ file ++ take n (encode_kv kv)
unfolding write
write-file n none kv file = refl
write-file n (some e) kv file = refl

not_empty : (xs : List ℕ) → 0 < length xs → xs ≢ []
not_empty [] h = elim h [ ]
not_empty (x ∷ xs) h = cc

-- The loop goes on after a record, and fails where bytes are left that are none.
read_loop-read_one :
    (limit n : ℕ) (bs : List ℕ) {kv : Kv} {rest : List ℕ}
    → read_one limit bs ≡ ok (kv, rest)
    → read_loop limit (suc n) bs ≡ (read_loop limit n rest >>= λ kvs. ok (kv ∷ kvs))
unfolding read_loop
read_loop-read_one limit n bs h =
    let ((k, bs'), e, e') = >>=-eq-ok (read_uvarint bs) (λ (k, bs'). read_rest limit k bs') h in
    rw (e, e', read_loop)

read_loop-err :
    (limit n : ℕ) (bs : List ℕ) (e : Error) (out : List Kv)
    → read_uvarint bs ≡ err e
    → bs ≢ []
    → read_loop limit (suc n) bs ≢ ok out
unfolding read_loop
read_loop-err limit n bs eof out e some_left h = some_left (read_uvarint-eof bs e)
read_loop-err limit n bs unexpected_eof out e some_left h = let bad = rw (e, read_loop) at h in cc
read_loop-err limit n bs overflow out e some_left h = let bad = rw (e, read_loop) at h in cc
read_loop-err limit n bs short_write out e some_left h = let bad = rw (e, read_loop) at h in cc
read_loop-err limit n bs (foreign x) out e some_left h = let bad = rw (e, read_loop) at h in cc

read_cases :
    (r : Read ℕ)
    → ((e : Error) × (r ≡ err e)) ⊎ (r ≡ panic) ⊎ ((k : ℕ) × (bs : List ℕ) × (r ≡ ok (k, bs)))
read_cases (err e) = inl (e, refl)
read_cases panic = inr (inl refl)
read_cases (ok (k, bs)) = inr (inr (k, bs, refl))

read_one-read_loop :
    (limit n : ℕ) (bs : List ℕ) (out : List Kv)
    → bs ≢ []
    → read_loop limit (suc n) bs ≡ ok out
    → (kv : Kv) × (rest : List ℕ) × (read_one limit bs ≡ ok (kv, rest))
unfolding read_loop
read_one-read_loop limit n bs out some_left h = elim (read_cases (read_uvarint bs)) [
  | inl (e, failed) ↦ absurd (read_loop-err limit n bs e out failed some_left h)
  | inr (inl bad) ↦ let h' = rw (bad, read_loop) at h in cc
  | inr (inr (k, bs', e)) ↦
      let h' = rw (e, read_loop) at h in
      let ((kv, rest), e', more) =
        >>=-eq-ok (read_rest limit k bs') (λ (kv, r). read_loop limit n r >>= λ kvs. ok (kv ∷ kvs))
          h' in
      (kv, rest, rw e e')
]

module _ (limit : ℕ) (word : limit < 2 ^ 64) where
  read_one-encode_kv :
      (kv : Kv) (bs : List ℕ) → IsSized limit kv → read_one limit (encode_kv kv ++ bs) ≡ ok (kv, bs)
  unfolding read_rest
  read_one-encode_kv kv bs (k, v) =
      let value_bs = kv.value ++ bs in
      let rest = kv.key ++ value_bs in
      let e1 =
        read_uvarint-put_uvarint (length kv.key) (put_uvarint (length kv.value) ++ rest)
          (omega arith) in
      let e2 = read_uvarint-put_uvarint (length kv.value) rest (omega arith) in
      rw (
        encode_kv-append kv bs,
        e1,
        e2,
        make_read-append limit kv.key value_bs k,
        make_read-append limit kv.value bs v,
      )

  read_loop-records :
      (kvs : List Kv) (n : ℕ)
      → length kvs < n
      → All (IsSized limit) kvs
      → read_loop limit n (records kvs) ≡ ok kvs
  unfolding read_loop read_uvarint
  read_loop-records kvs zero h sized = absurd (omega arith)
  read_loop-records [] (suc n) h sized = refl
  read_loop-records (kv ∷ kvs) (suc n) h (s, sized) =
      read_loop-read_one limit n (records (kv ∷ kvs)) (read_one-encode_kv kv (records kvs) s)
      ∙ ap (λ r. r >>= λ more. ok (kv ∷ more)) (read_loop-records kvs n (omega arith) sized)

  -- Every record takes a byte at least.
  length-records : (kvs : List Kv) → length kvs ≤ length (records kvs)
  length-records [] = omega arith
  length-records (kv ∷ kvs) =
      let k = put_uvarint (length kv.key) in
      let v = put_uvarint (length kv.value) in
      let whole : length (encode_kv kv ++ records kvs)
          ≡ length (encode_kv kv) + length (records kvs) =
        length-append (encode_kv kv) (records kvs) in
      let some_byte : 0 < length (encode_kv kv) = omega (
        arith,
        length-append ((k ++ v) ++ kv.key) kv.value,
        length-append (k ++ v) kv.key,
        length-append k v,
        put_uvarint-some (length kv.key),
      ) in
      rw whole (omega (arith, length-records kvs))

  -- What was written to a new log is read back, in the order in which it was written, if every key
  -- and value fits in a slice.
  pub read_all-written :
      (kvs : List Kv) → All (IsSized limit) kvs → read_all limit (written kvs []) ≡ ok kvs
  unfolding read_all
  read_all-written kvs sized =
      let n = length-records kvs in
      rw (written-records kvs [])
        (read_loop-records kvs (suc (length (records kvs))) (omega arith) sized)

  -- A beginning of a record, with what is missing of it.
  read_one-part :
      (kv : Kv) (part missing : List ℕ) (out : Kv) (rest : List ℕ)
      → IsSized limit kv
      → part ++ missing ≡ encode_kv kv
      → missing ≢ []
      → read_one limit part ≢ ok (out, rest)
  read_one-part kv part missing out rest sized whole more h =
      let longer = read_one-Extends limit part missing out rest h in
      let exact = read_one-encode_kv kv [] sized in
      let same : encode_kv kv ++ [] ≡ part ++ missing = append-nil (encode_kv kv) ∙ sym whole in
      more (append_empty rest missing (cc (longer, exact, ap (read_one limit) same)))

  read_loop-part :
      (kvs : List Kv) (kv : Kv) (part missing : List ℕ) (n : ℕ) (out : List Kv)
      → All (IsSized limit) kvs
      → IsSized limit kv
      → part ++ missing ≡ encode_kv kv
      → part ≢ []
      → missing ≢ []
      → length kvs < n
      → read_loop limit n (records kvs ++ part) ≢ ok out
  read_loop-part kvs kv part missing zero out sized s whole begun more enough h =
      absurd (omega arith)
  read_loop-part [] kv part missing (suc n) out sized s whole begun more enough h =
      let (got, rest, e) = read_one-read_loop limit n part out begun h in
      read_one-part kv part missing got rest s whole more e
  read_loop-part (first ∷ kvs) kv part missing (suc n) out (s', sized) s whole begun more enough h =
      let step =
        read_loop-read_one limit n (encode_kv first ++ (records kvs ++ part))
          (read_one-encode_kv first (records kvs ++ part) s') in
      let (kvs', e, e') =
        >>=-eq-ok (read_loop limit n (records kvs ++ part)) (λ more. ok (first ∷ more))
          (sym step
            ∙ ap (read_loop limit (suc n)) (sym (append_assoc (encode_kv first) (records kvs) part))
            ∙ h) in
      read_loop-part kvs kv part missing n kvs' sized s whole begun more (omega arith) e

  -- A log whose last write stopped in the middle is not read back at all: none of the records before
  -- it is returned either.
  pub read_all-torn :
      (kvs : List Kv) (n : ℕ) (failure : Option Error) (kv : Kv) (out : List Kv)
      → All (IsSized limit) kvs
      → IsSized limit kv
      → 0 < n
      → n < length (encode_kv kv)
      → read_all limit ((write n failure kv (written kvs [])).0) ≢ ok out
  unfolding read_all write
  read_all-torn kvs n failure kv out sized s begun short h =
      let part = take n (encode_kv kv) in
      let file : (write n failure kv (written kvs [])).0 ≡ records kvs ++ part =
        write-file n failure kv (written kvs []) ∙ ap (λ w. w ++ part) (written-records kvs []) in
      let lp = length-take n (encode_kv kv) in
      let ld = length-drop n (encode_kv kv) in
      read_loop-part kvs kv part (drop n (encode_kv kv)) (suc (length (records kvs ++ part))) out
        sized s (take-append-drop n (encode_kv kv)) (λ e. not_empty part (omega arith) e)
        (λ e. not_empty (drop n (encode_kv kv)) (omega arith) e)
        (omega (arith, length-append (records kvs) part, length-records kvs))
        (sym (ap (read_all limit) file) ∙ h)
