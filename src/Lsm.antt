-- ===== src/Lsm.antt =====
-- components/lsm_tree: what its parts share, the integers of variable length of encoding/binary and
-- the reading of bytes of io.
pub mod Varint
pub mod Wal
pub mod Block
pub mod Filter
pub mod Table
pub mod Node
mod Tests
use yukino_go.Base.{
  ℕ, zero, suc, ◌+◌, ◌-◌, ◌*◌, ◌/◌, ◌%◌, List, [], ◌∷◌, length, take, drop, nat_beq, ltb, leb,
  if◌then◌else◌, Res, ok, err, panic, ◌>>=◌,
}

-- io.EOF, io.ErrUnexpectedEOF, the overflow of encoding/binary, io.ErrShortWrite, and the errors of
-- the operating system.
pub data Error : Type 0 where
  eof : Error
  unexpected_eof : Error
  overflow : Error
  short_write : Error
  foreign : ℕ → Error

-- A reader is the bytes that it has left. What is left after an error is never looked at.
abbrev pub Read : Type 0 → Type 0
Read A = Res Error (A × List ℕ)

-- `binary.PutUvarint`, with the bytes that may follow this one.
unfoldable pub put_more : ℕ → ℕ → List ℕ
put_more zero x = x % 256 ∷ []
put_more (suc n) x =
    let more = put_more n (x / 128) in if ltb x 128 then x ∷ [] else (x % 128 + 128) ∷ more

abbrev pub put_uvarint : ℕ → List ℕ
put_uvarint x = put_more 9 x

-- `binary.ReadUvarint` after its first byte was asked for.
unfoldable pub read_more : ℕ → List ℕ → Read ℕ
read_more n [] = err unexpected_eof
read_more zero (b ∷ bs) = if ltb 1 b then err overflow else ok (b, bs)
read_more (suc n) (b ∷ bs) =
    let later = read_more n bs in
    if ltb b 128 then ok (b, bs) else later >>= λ (x, rest). ok (b - 128 + 128 * x, rest)

unfoldable pub read_uvarint : List ℕ → Read ℕ
read_uvarint [] = err eof
read_uvarint (b ∷ bs) = read_more 9 (b ∷ bs)

-- `buf := make([]byte, n)` and `io.ReadFull(reader, buf)`, where `limit` is how long a slice may be.
unfoldable pub make_read : ℕ → ℕ → List ℕ → Read (List ℕ)
make_read limit n bs =
    if ltb limit n
    then panic
    else if leb n (length bs)
    then ok (take n bs, drop n bs)
    else if nat_beq (length bs) 0
    then err eof
    else err unexpected_eof
