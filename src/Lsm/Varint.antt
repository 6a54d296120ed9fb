-- ===== src/Lsm/Varint.antt =====
-- What is read back of what was written.
use yukino_go.Base.{
  Res, >>=-eq-ok, ◌≢◌, err, panic, nat_beq, ℕ, zero, suc, ◌+◌, ◌-◌, ◌*◌, take-append_le,
  take-length, ◌∙◌, length-append, ◌/◌, ◌%◌, ◌≤◌, ◌<◌, ◌^◌, ◌≡◌, inl, inr, refl, sym, ap, arith,
  Bool-cases, true, false, List, [], ◌∷◌, ◌++◌, length, take, drop, ltb, leb, ok, ◌>>=◌,
}
use yukino_go.Lsm.{Error, eof, Read, put_more, put_uvarint, read_more, read_uvarint, make_read}

-- What fits in the bytes that may follow.
abbrev bound : ℕ → ℕ
bound zero = 2
bound (suc n) = 128 * bound n

read_more-put_more :
    (n x : ℕ) (bs : List ℕ) → x < bound n → read_more n (put_more n x ++ bs) ≡ ok (x, bs)
unfolding read_more put_more
read_more-put_more zero x bs h =
    let e : x % 256 ≡ x = omega arith in let small : ltb 1 x ≡ false = ground arith in rw (e, small)
read_more-put_more (suc n) x bs h = elim (Bool-cases (ltb x 128)) [
  | inl small ↦ rw (small, small)
  | inr large ↦
      let big : ltb (x % 128 + 128) 128 ≡ false = ground arith in
      let e : x % 128 + 128 - 128 + 128 * (x / 128) ≡ x = omega arith in
      rw (large, big, read_more-put_more n (x / 128) bs (omega arith), e)
]

-- At least one byte is written.
put_some : (n x : ℕ) → (b : ℕ) × (more : List ℕ) × (put_more n x ≡ b ∷ more)
unfolding put_more
put_some zero x = (x % 256, [], refl)
put_some (suc n) x = elim (Bool-cases (ltb x 128)) [
  | inl small ↦ (x, [], rw small refl)
  | inr large ↦ (x % 128 + 128, put_more n (x / 128), rw large refl)
]

-- How many bytes a number takes: eight, if it is below 2^56.
abbrev power : ℕ → ℕ
power zero = 1
power (suc k) = 128 * power k

length-put_more : (k n x : ℕ) → x < power (suc k) → length (put_more n x) ≤ suc k
unfolding put_more
length-put_more k zero x h = omega arith
length-put_more zero (suc n) x h =
    let small : ltb x 128 ≡ true = ground arith in rw small (omega arith)
length-put_more (suc k) (suc n) x h = elim (Bool-cases (ltb x 128)) [
  | inl small ↦ rw small (omega arith)
  | inr large ↦ rw large (omega (arith, length-put_more k n (x / 128) (omega arith)))
]

pub length-put_uvarint : (x : ℕ) → x < 2 ^ 56 → length (put_uvarint x) ≤ 8
length-put_uvarint x h = length-put_more 7 9 x h

length-put_more_le : (n x : ℕ) → length (put_more n x) ≤ suc n
unfolding put_more
length-put_more_le zero x = omega arith
length-put_more_le (suc n) x = elim (Bool-cases (ltb x 128)) [
  | inl small ↦ rw small (omega arith)
  | inr large ↦ rw large (omega (arith, length-put_more_le n (x / 128)))
]

pub put_uvarint-le : (x : ℕ) → length (put_uvarint x) ≤ 10
put_uvarint-le x = length-put_more_le 9 x

pub put_uvarint-some : (x : ℕ) → 0 < length (put_uvarint x)
put_uvarint-some x = let (b, more, e) = put_some 9 x in rw e (omega arith)

pub read_uvarint-put_uvarint :
    (x : ℕ) (bs : List ℕ) → x < 2 ^ 64 → read_uvarint (put_uvarint x ++ bs) ≡ ok (x, bs)
unfolding read_uvarint
read_uvarint-put_uvarint x bs h =
    let again = read_more-put_more 9 x bs h in
    let (b, more, e) = put_some 9 x in
    ap (λ w. read_uvarint (w ++ bs)) e ∙ sym (ap (λ w. read_more 9 (w ++ bs)) e) ∙ again

drop-append : (xs ys : List ℕ) → drop (length xs) (xs ++ ys) ≡ ys
drop-append [] ys = refl
drop-append (x ∷ xs) ys = drop-append xs ys

pub make_read-append :
    (limit : ℕ) (xs bs : List ℕ)
    → length xs ≤ limit
    → make_read limit (length xs) (xs ++ bs) ≡ ok (xs, bs)
unfolding make_read
make_read-append limit xs bs h =
    let fits : ltb limit (length xs) ≡ false = ground arith in
    let there : leb (length xs) (length (xs ++ bs)) ≡ true = ground (arith, length-append xs bs) in
    let whole : take (length xs) (xs ++ bs) ≡ xs =
      take-append_le (length xs) xs bs (omega arith) ∙ take-length xs in
    rw (fits, there, whole, drop-append xs bs)

-- What reads a value from some bytes reads it from them also when more bytes follow.
abbrev pub Extends : {A : Type 0} → (List ℕ → Read A) → Type 0
Extends {A = A} read =
    (bs more : List ℕ) (out : A) (rest : List ℕ)
    → read bs ≡ ok (out, rest)
    → read (bs ++ more) ≡ ok (out, rest ++ more)

pub ok-Extends : {A : Type 0} {a : A} → Extends (λ bs. ok (a, bs))
ok-Extends bs more out rest h = cc

pub >>=-Extends :
    {A B : Type 0} {first : List ℕ → Read A} {next : A → List ℕ → Read B}
    → Extends first
    → ((a : A) → Extends (next a))
    → Extends (λ bs. first bs >>= λ (a, bs'). next a bs')
>>=-Extends {first = first} {next = next} f g bs more out rest h =
    let ((a, bs'), e, e') = >>=-eq-ok (first bs) (λ (a, bs'). next a bs') h in
    rw (f bs more a bs' e) (g a bs' more out rest e')

read_more-Extends : (n : ℕ) → Extends (read_more n)
unfolding read_more
read_more-Extends n [] more out rest h = cc
read_more-Extends zero (b ∷ bs) more out rest h = elim (Bool-cases (ltb 1 b)) [
  | inl e ↦ let bad = rw e at h in cc
  | inr e ↦ let good = rw e at h in rw e cc
]
read_more-Extends (suc n) (b ∷ bs) more out rest h = elim (Bool-cases (ltb b 128)) [
  | inl e ↦ let good = rw e at h in rw e cc
  | inr e ↦ rw e (
      >>=-Extends {next = λ x bs'. ok (b - 128 + 128 * x, bs')} (read_more-Extends n)
        (λ x. ok-Extends) bs more out rest (rw e at h))
]

pub read_uvarint-Extends : Extends read_uvarint
unfolding read_uvarint
read_uvarint-Extends [] more out rest h = cc
read_uvarint-Extends (b ∷ bs) more out rest h = read_more-Extends 9 (b ∷ bs) more out rest h

drop-append_le : (n : ℕ) (xs ys : List ℕ) → n ≤ length xs → drop n (xs ++ ys) ≡ drop n xs ++ ys
drop-append_le zero xs ys h = refl
drop-append_le (suc n) [] ys h = absurd (omega arith)
drop-append_le (suc n) (x ∷ xs) ys h = drop-append_le n xs ys (omega arith)

pub make_read-Extends : (limit n : ℕ) → Extends (make_read limit n)
unfolding make_read
make_read-Extends limit n bs more out rest h = elim (Bool-cases (ltb limit n)) [
  | inl long ↦ let bad = rw long at h in cc
  | inr e ↦ elim (Bool-cases (leb n (length bs))) [
    | inl there ↦
        let all : leb n (length (bs ++ more)) ≡ true = ground (arith, length-append bs more) in
        let within : n ≤ length bs = ground arith in
        let good = rw (e, there) at h in
        rw (e, all, take-append_le n bs more within, drop-append_le n bs more within) cc
    | inr few ↦ elim (Bool-cases (nat_beq (length bs) 0)) [
      | inl z ↦ let bad = rw (e, few, z) at h in cc
      | inr z ↦ let bad = rw (e, few, z) at h in cc
    ]
  ]
]

-- An error that no step returns is not returned.
>>=-never :
    {A B : Type 0} {e : Error} (first : Res Error A) (next : A → Res Error B)
    → first ≢ err e
    → ((a : A) → next a ≢ err e)
    → (first >>= next) ≢ err e
>>=-never (ok a) next f g h = g a h
>>=-never (err e') next f g h = f cc
>>=-never panic next f g h = cc

-- Only where there is no byte.
read_more-eof : (n : ℕ) (bs : List ℕ) → read_more n bs ≢ err eof
unfolding read_more
read_more-eof n [] h = cc
read_more-eof zero (b ∷ bs) h = elim (Bool-cases (ltb 1 b)) [
  | inl e ↦ let bad = rw e at h in cc
  | inr e ↦ let bad = rw e at h in cc
]
read_more-eof (suc n) (b ∷ bs) h = elim (Bool-cases (ltb b 128)) [
  | inl e ↦ let bad = rw e at h in cc
  | inr e ↦ let bad = rw e at h in >>=-never (read_more n bs) _ (read_more-eof n bs) (λ x. cc) bad
]

pub read_uvarint-eof : (bs : List ℕ) → read_uvarint bs ≡ err eof → bs ≡ []
unfolding read_uvarint
read_uvarint-eof [] h = refl
read_uvarint-eof (b ∷ bs) h = absurd (read_more-eof 9 (b ∷ bs) h)
