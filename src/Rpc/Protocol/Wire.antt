-- ===== src/Rpc/Protocol/Wire.antt =====
-- The bytes of a packet: what `encode` writes and `decode` reads.
use mathlib.Core.List.{append-nil}
use yukino_go.Base.{
  ℕ, zero, suc, ◌+◌, ◌-◌, ◌*◌, ◌/◌, ◌%◌, ◌^◌, ◌≤◌, ◌<◌, ◌≡◌, refl, ap, ◌∙◌, arith, true, false,
  ◌&&◌, some, List, [], ◌∷◌, ◌++◌, length, take, drop, nat_eq, nat_beq, ltb, leb, add32,
  if◌then◌else◌, Res, ok, ◌>>=◌, slice, length-append, take-append_le, take-length, take_all,
}
use yukino_go.Rpc.Protocol.{
  Header, Error, Packages, compression_none, magic, put16, put32, zeros, copy_at, put_at, compress,
  decompress, encode_with, encode, decode_with, decode,
}

-- The four bytes of `put32` give the number back.
pub four_bytes :
    (n : ℕ)
    → n < 2 ^ 32
    → n / 16777216 % 256 * 16777216 + n / 65536 % 256 * 65536 + n / 256 % 256 * 256 + n % 256 ≡ n
four_bytes n h = omega arith

length-zeros : (n : ℕ) → length (zeros n) ≡ n
length-zeros zero = refl
length-zeros (suc n) = ap suc (length-zeros n)

drop-zeros : (k n : ℕ) → drop k (zeros n) ≡ zeros (n - k)
drop-zeros zero n = let e : n - 0 ≡ n = omega arith in rw e
drop-zeros (suc k) zero = let e : 0 - suc k ≡ 0 = omega arith in rw e
drop-zeros (suc k) (suc n) = let e : suc n - suc k ≡ n - k = omega arith in rw e (drop-zeros k n)

pub drop-append :
    {A : Type 0} (xs ys : List A) (k : ℕ) → drop (length xs + k) (xs ++ ys) ≡ drop k ys
drop-append [] ys k = ap (λ n. drop n ys) (omega arith)
drop-append (x ∷ xs) ys k =
    let e : suc (length xs) + k ≡ suc (length xs + k) = omega arith in rw e (drop-append xs ys k)

pub take-append : {A : Type 0} (xs ys : List A) → take (length xs) (xs ++ ys) ≡ xs
take-append xs ys = take-append_le (length xs) xs ys (omega arith) ∙ take-length xs

-- Filling a buffer of zeros from the left.
copy_at-zeros :
    (written src : List ℕ) (n : ℕ)
    → length src ≤ n
    → copy_at (written ++ zeros n) (length written) src
      ≡ ok (written ++ src ++ zeros (n - length src))
unfolding copy_at
copy_at-zeros written src n h =
    let l : length (written ++ zeros n) ≡ length written + n =
      omega (arith, length-append written (zeros n), length-zeros n) in
    let t : leb (length written) (length (written ++ zeros n)) ≡ true = ground arith in
    let k : length src ≤ length (written ++ zeros n) - length written = omega arith in
    rw (
      t,
      take-append written (zeros n),
      take_all (length (written ++ zeros n) - length written) src k,
      drop-append written (zeros n) (length src),
      drop-zeros (length src) n,
    )

put_at-zeros :
    (written src : List ℕ) (n : ℕ)
    → length src ≤ n
    → put_at (written ++ zeros n) (length written) src
      ≡ ok (written ++ src ++ zeros (n - length src))
unfolding put_at
put_at-zeros written src n h =
    let l : length (written ++ zeros n) ≡ length written + n =
      omega (arith, length-append written (zeros n), length-zeros n) in
    let t : leb (length written + length src) (length (written ++ zeros n)) ≡ true = ground arith in
    rw t (copy_at-zeros written src n h)

pub slice-append :
    {E : Type 0} (xs ys zs : List ℕ) (lo hi : ℕ)
    → lo ≡ length xs
    → hi ≡ length xs + length ys
    → slice {E = E} (xs ++ (ys ++ zs)) lo hi ≡ ok ys
slice-append xs ys zs lo hi e f =
    let l : hi ≤ length (xs ++ (ys ++ zs)) =
      omega (arith, length-append xs (ys ++ zs), length-append ys zs) in
    let t : (leb lo hi && leb hi (length (xs ++ (ys ++ zs)))) ≡ true = ground arith in
    let lo_0 : lo ≡ length xs + 0 = omega arith in
    let d : drop lo (xs ++ (ys ++ zs)) ≡ ys ++ zs =
      ap (λ n. drop n (xs ++ (ys ++ zs))) lo_0 ∙ drop-append xs (ys ++ zs) 0 in
    let k : hi - lo ≡ length ys = omega arith in rw (t, d, k, take-append ys zs)

-- A packet, as bytes: its magic number, the two lengths, the header and the body.
abbrev pub frame : List ℕ → List ℕ → List ℕ
frame header body = put16 magic ++ put32 (length header) ++ put32 (length body) ++ header ++ body

-- The writes of `encode` fill the buffer.
fill :
    (header body : List ℕ) (hl bl total : ℕ)
    → total ≡ 10 + length header + length body
    → (do
      with_magic ← put_at (zeros total) 0 (put16 magic)
      with_header_len ← put_at with_magic 2 (put32 hl)
      with_body_len ← put_at with_header_len 6 (put32 bl)
      with_header ← copy_at with_body_len 10 header
      copy_at with_header (10 + length header) body)
      ≡ ok (put16 magic ++ put32 hl ++ put32 bl ++ header ++ body)
fill header body hl bl total e =
    let l : 10 + length header ≡ length (put16 magic ++ put32 hl ++ put32 bl ++ header) =
      omega (arith, length-append (put16 magic ++ put32 hl ++ put32 bl) header) in
    let left : total - 2 - 4 - 4 - length header - length body ≡ 0 = omega arith in
    rw
      (
        put_at-zeros [] (put16 magic) total (omega arith),
        put_at-zeros (put16 magic) (put32 hl) (total - 2) (omega arith),
        put_at-zeros (put16 magic ++ put32 hl) (put32 bl) (total - 2 - 4) (omega arith),
        copy_at-zeros (put16 magic ++ put32 hl ++ put32 bl) header (total - 2 - 4 - 4)
            (omega arith),
        l,
        copy_at-zeros (put16 magic ++ put32 hl ++ put32 bl ++ header) body
            (total - 2 - 4 - 4 - length header) (omega arith),
      )
      (rw (left, append-nil))

module _ (p : Packages) where
  -- The body as it is sent.
  abbrev pub pack : Header → List ℕ → Res Error (List ℕ)
  pack header body =
      if nat_beq header.compression compression_none
      then ok body
      else compress p body header.compression

  -- The documented behaviour of encoding/json on a header (its texts are valid UTF-8) and of
  -- compress/gzip: what they write, they read back.
  pub record ReadsBack (header : Header) : Type 0 where
    pub unmarshal-marshal :
        (bytes : List ℕ) → p.marshal header ≡ ok bytes → p.unmarshal bytes ≡ ok header
    pub decompress-compress :
        (plain bytes : List ℕ)
        → p.gzip.compress plain ≡ ok bytes
        → p.gzip.decompress bytes ≡ ok plain

  encode_with-frame :
      (header : Header) (body packed header_bytes : List ℕ)
      → p.marshal header ≡ ok header_bytes
      → 10 + length header_bytes + length packed < 2 ^ 32
      → pack header body ≡ ok packed
      → encode_with p header body ≡ ok (frame header_bytes packed)
  unfolding encode_with
  encode_with-frame header body packed hb hm size hc =
      let hl : length hb % 2 ^ 32 ≡ length hb = omega arith in
      let bl : length packed % 2 ^ 32 ≡ length packed = omega arith in
      let total : (10 + length hb + length packed) % 2 ^ 32 ≡ 10 + length hb + length packed =
        omega arith in
      let at : add32 10 (length hb) ≡ 10 + length hb = omega arith in
      rw (hc, hm, hl, bl, total, at)
        (fill hb packed (length hb) (length packed) (10 + length hb + length packed) refl)

  decode_with-frame :
      (header : Header) (body packed header_bytes : List ℕ)
      → p.unmarshal header_bytes ≡ ok header
      → 10 + length header_bytes + length packed < 2 ^ 32
      → (if nat_beq header.compression compression_none
          then ok packed
          else decompress p packed header.compression)
        ≡ ok body
      → decode_with p (frame header_bytes packed) (length header_bytes) (length packed)
        ≡ ok (record { header = some header; body = body })
  unfolding decode_with
  decode_with-frame header body packed hb hm size hc =
      let at : add32 10 (length hb) ≡ 10 + length hb = omega arith in
      let past : add32 (10 + length hb) (length packed) ≡ 10 + length hb + length packed =
        omega arith in
      let lens = put16 magic ++ put32 (length hb) ++ put32 (length packed) in
      let s1 = slice-append {E = Error} lens hb packed 10 (10 + length hb) refl refl in
      let s2 =
        slice-append {E = Error} (lens ++ hb) packed [] (10 + length hb)
          (10 + length hb + length packed) (omega (arith, length-append lens hb))
          (omega (arith, length-append lens hb)) in
      let s3 = rw (append-nil packed) at s2 in rw (at, past, s1, hm, s3, hc)

  decode-frame :
      (hb packed : List ℕ)
      → 10 + length hb + length packed < 2 ^ 32
      → decode p (frame hb packed) ≡ decode_with p (frame hb packed) (length hb) (length packed)
  unfolding decode
  decode-frame hb packed size =
      let hl = length hb in
      let bl = length packed in
      let more = hb ++ packed in
      let l : length (frame hb packed) ≡ 10 + hl + bl = omega (arith, length-append hb packed) in
      let long : ltb (length (frame hb packed)) 10 ≡ false = ground arith in
      let small : ltb (2 ^ 63 - 1) (10 + hl + bl) ≡ false = ground arith in
      let whole : ltb (length (frame hb packed)) (10 + hl + bl) ≡ false = ground arith in
      let s1 =
        slice-append {E = Error} [] (put16 magic) (put32 hl ++ put32 bl ++ more) 0 2 refl refl in
      let s2 = slice-append {E = Error} (put16 magic) (put32 hl) (put32 bl ++ more) 2 6 refl refl in
      let s3 = slice-append {E = Error} (put16 magic ++ put32 hl) (put32 bl) more 6 10 refl refl in
      let h1 = four_bytes hl (omega arith) in
      let h2 = four_bytes bl (omega arith) in rw (long, s1, s2, h1, s3, h2, small, whole)

  unpack-pack :
      (header : Header) (body packed : List ℕ)
      → ReadsBack header
      → pack header body ≡ ok packed
      → (if nat_beq header.compression compression_none
          then ok packed
          else decompress p packed header.compression)
        ≡ ok body
  unfolding compress decompress
  unpack-pack header body packed r h = ground (arith, r.decompress-compress body packed)

  pub encode-frame :
      (header : Header) (body hb packed : List ℕ)
      → p.marshal header ≡ ok hb
      → pack header body ≡ ok packed
      → 10 + length hb + length packed < 2 ^ 32
      → encode p (record { header = some header; body = body }) ≡ ok (frame hb packed)
  unfolding encode
  encode-frame header body hb packed hm hp size = encode_with-frame header body packed hb hm size hp

  -- What `encode` writes, `decode` reads back, where the packages do and the packet is shorter than
  -- 2^32 bytes.
  pub decode-encode :
      (header : Header) (body header_bytes packed : List ℕ)
      → ReadsBack header
      → p.marshal header ≡ ok header_bytes
      → pack header body ≡ ok packed
      → 10 + length header_bytes + length packed < 2 ^ 32
      → (encode p (record { header = some header; body = body }) >>= decode p)
        ≡ ok (record { header = some header; body = body })
  unfolding encode
  decode-encode header body hb packed r hm hp size = rw (
    encode_with-frame header body packed hb hm size hp,
    decode-frame hb packed size,
    decode_with-frame header body packed hb (r.unmarshal-marshal hb hm) size
        (unpack-pack header body packed r hp),
  )
