-- ===== src/Rpc/Protocol/Framing.antt =====
-- Packets on a byte stream that arrives in pieces.
use mathlib.Core.List.{append_assoc}
use yukino_go.Base.{
  ℕ, zero, suc, ◌+◌, ◌-◌, ◌^◌, ◌≤◌, ◌<◌, ◌≡◌, refl, sym, ap, ◌∙◌, arith, true, false, ◌&&◌, none,
  some, List, [], ◌∷◌, ◌++◌, length, take, drop, nat_eq, ltb, leb, if◌then◌else◌, ok, ◌>>=◌, slice,
  length-append, take-append_le, length-drop, Bool-cases, inl, inr,
}
use yukino_go.Rpc.Protocol.{
  Header, Error, Packages, magic, put16, put32, decode_len, skip_to_magic, buffer_read,
  connection_read, decode, encode,
}
use yukino_go.Rpc.Protocol.Wire.{
  ReadsBack, pack, encode-frame, decode-encode, frame, four_bytes, drop-append, take-append,
  slice-append,
}

-- Cutting where the first part reaches.
drop-append_le : (n : ℕ) (xs ys : List ℕ) → n ≤ length xs → drop n (xs ++ ys) ≡ drop n xs ++ ys
drop-append_le zero xs ys h = refl
drop-append_le (suc n) [] ys h = absurd (omega arith)
drop-append_le (suc n) (x ∷ xs) ys h = drop-append_le n xs ys (omega arith)

slice-append_le :
    (xs ys : List ℕ) (lo hi : ℕ)
    → lo ≤ hi
    → hi ≤ length xs
    → slice {E = Error} (xs ++ ys) lo hi ≡ slice xs lo hi
slice-append_le xs ys lo hi h k =
    let t1 : (leb lo hi && leb hi (length (xs ++ ys))) ≡ true =
      ground (arith, length-append xs ys) in
    let t2 : (leb lo hi && leb hi (length xs)) ≡ true = ground arith in
    let d = drop-append_le lo xs ys (omega arith) in
    let e = take-append_le (hi - lo) (drop lo xs) ys (omega (arith, length-drop lo xs)) in
    rw (t1, t2, d, e)

-- A stream that starts with a packet of these parts.
module _ (hb body rest : List ℕ) (size : 10 + length hb + length body < 2 ^ 32) where
  -- No byte is dropped from its beginning.
  skip_to_magic-frame :
      (buf later : List ℕ) → buf ++ later ≡ frame hb body ++ rest → skip_to_magic buf ≡ buf
  unfolding skip_to_magic
  skip_to_magic-frame [] later h = refl
  skip_to_magic-frame (a ∷ []) later h = refl
  skip_to_magic-frame (a ∷ b ∷ more) later h =
      let x : a ≡ 18 = cc in let y : b ≡ 52 = cc in rw (x, y)

  length-frame : length (frame hb body) ≡ 10 + length hb + length body
  length-frame = omega (arith, length-append hb body)

  take-frame :
      (buf later : List ℕ)
      → buf ++ later ≡ frame hb body ++ rest
      → 10 + length hb + length body ≤ length buf
      → take (10 + length hb + length body) buf ≡ frame hb body
  take-frame buf later h reach =
      sym (take-append_le (10 + length hb + length body) buf later reach)
      ∙ ap (take (10 + length hb + length body)) h
      ∙ ap (λ n. take n (frame hb body ++ rest)) (sym length-frame)
      ∙ take-append (frame hb body) rest

  drop-frame :
      (buf later : List ℕ)
      → buf ++ later ≡ frame hb body ++ rest
      → 10 + length hb + length body ≤ length buf
      → drop (10 + length hb + length body) buf ++ later ≡ rest
  drop-frame buf later h reach =
      let end : 10 + length hb + length body ≡ length (frame hb body) + 0 =
        omega (arith, length-frame) in
      sym (drop-append_le (10 + length hb + length body) buf later reach)
      ∙ ap (drop (10 + length hb + length body)) h
      ∙ ap (λ n. drop n (frame hb body ++ rest)) end
      ∙ drop-append (frame hb body) rest 0

  -- What is read of a buffer that holds a beginning of the stream: the packet, once it is whole.
  buffer_read-frame :
      (buf later : List ℕ)
      → buf ++ later ≡ frame hb body ++ rest
      → buffer_read buf
        ≡ ok (
            if ltb (length buf) (10 + length hb + length body)
            then (none, buf)
            else (some (frame hb body), drop (10 + length hb + length body) buf))
  unfolding buffer_read decode_len
  buffer_read-frame buf later h =
      let hl = length hb in
      let bl = length body in
      let more = hb ++ body ++ rest in
      let skip = skip_to_magic-frame buf later h in
      elim (Bool-cases (ltb (length buf) 10)) [
        | inl short ↦
            let s : ltb (length buf) (10 + hl + bl) ≡ true = ground arith in rw (skip, short, s)
        | inr long ↦
            let ten : 10 ≤ length buf = ground arith in
            let s2 : slice {E = Error} buf 2 6 ≡ ok (put32 hl) =
              sym (slice-append_le buf later 2 6 (omega arith) (omega arith))
              ∙ ap (λ w. slice w 2 6) h
              ∙ slice-append (put16 magic) (put32 hl) (put32 bl ++ more) 2 6 refl refl in
            let s3 : slice {E = Error} buf 6 10 ≡ ok (put32 bl) =
              sym (slice-append_le buf later 6 10 (omega arith) (omega arith))
              ∙ ap (λ w. slice w 6 10) h
              ∙ slice-append (put16 magic ++ put32 hl) (put32 bl) more 6 10 refl refl in
            let h1 = four_bytes hl (omega arith) in
            let h2 = four_bytes bl (omega arith) in
            rw (skip, long, s2, h1, s3, h2)
              (elim (Bool-cases (ltb (length buf) (10 + hl + bl))) [
                | inl part ↦ rw part
                | inr all ↦
                    let reach : 10 + hl + bl ≤ length buf = ground arith in
                    rw (all, take-frame buf later h reach)
              ])
      ]

-- The bytes that are still to come.
abbrev pub concat : List (List ℕ) → List ℕ
concat [] = []
concat (chunk ∷ chunks) = chunk ++ concat chunks

module _ (p : Packages) (failure : Error) (hb body rest : List ℕ)
    (size : 10 + length hb + length body < 2 ^ 32) where
  connection_read-frame :
      (buf : List ℕ) (chunks : List (List ℕ))
      → buf ++ concat chunks ≡ frame hb body ++ rest
      → (after : List ℕ × List (List ℕ)) × (connection_read p failure buf chunks
          ≡ (decode p (frame hb body) >>= λ msg. ok (msg, after.0, after.1)))
        × (after.0 ++ concat after.1 ≡ rest)
  unfolding connection_read
  connection_read-frame buf [] h =
      let n = 10 + length hb + length body in
      let l : length buf + 0 ≡ n + length rest = omega (
        arith,
        ap length h,
        length-append buf [],
        length-append (frame hb body) rest,
        length-append hb body,
      ) in
      let all : ltb (length buf) n ≡ false = ground arith in
      (
        (drop n buf, []),
        rw (buffer_read-frame hb body rest size buf [] h, all),
        drop-frame hb body rest size buf [] h (ground arith),
      )
  connection_read-frame buf (chunk ∷ chunks) h =
      elim (Bool-cases (ltb (length buf) (10 + length hb + length body))) [
        | inl part ↦
            let (after, read, left) =
              connection_read-frame (buf ++ chunk) chunks
                (append_assoc buf chunk (concat chunks) ∙ h) in
            (
              after,
              rw (buffer_read-frame hb body rest size buf (chunk ++ concat chunks) h, part) read,
              left,
            )
        | inr all ↦ (
          (drop (10 + length hb + length body) buf, chunk ∷ chunks),
          rw (buffer_read-frame hb body rest size buf (chunk ++ concat chunks) h, all),
          drop-frame hb body rest size buf (chunk ++ concat chunks) h (ground arith),
        )
      ]

module _ (p : Packages) (failure : Error) where
  -- A connection on which the bytes of an encoded message arrive, split in any way into what is
  -- buffered and what each read returns, gives that message, and leaves the bytes that follow it;
  -- where the packages read back what they write and the packet is shorter than 2^32 bytes.
  pub connection_read-encode :
      (header : Header) (body hb packed bytes rest buf : List ℕ) (chunks : List (List ℕ))
      → ReadsBack p header
      → p.marshal header ≡ ok hb
      → pack p header body ≡ ok packed
      → 10 + length hb + length packed < 2 ^ 32
      → encode p (record { header = some header; body = body }) ≡ ok bytes
      → buf ++ concat chunks ≡ bytes ++ rest
      → (after : List ℕ × List (List ℕ)) × (connection_read p failure buf chunks
          ≡ ok (record { header = some header; body = body }, after.0, after.1))
        × (after.0 ++ concat after.1 ≡ rest)
  connection_read-encode header body hb packed bytes rest buf chunks r hm hp size he h =
      let written = encode-frame p header body hb packed hm hp size in
      let same : bytes ≡ frame hb packed = cc in
      let back = rw written at (decode-encode p header body hb packed r hm hp size) in
      let (after, read, left) =
        connection_read-frame p failure hb packed rest size buf chunks
          (h ∙ ap (λ w. w ++ rest) same) in
      (after, read ∙ rw back, left)
