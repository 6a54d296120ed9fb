-- ===== src/Rpc/Protocol.antt =====
-- libs/yukino_rpc/internal/protocol/message.go and header.go, internal/codec/compress.go, and the reading
-- side of internal/transport/tcp_connection.go: packets on a byte stream.
pub mod Wire
pub mod Framing
use yukino_go.Base.{
  ℕ, zero, suc, ◌+◌, ◌-◌, ◌*◌, ◌/◌, ◌%◌, ◌^◌, Bool, true, false, not, ◌&&◌, Option, none, some,
  List, [], ◌∷◌, ◌++◌, length, take, drop, lookup, nat_eq, nat_beq, ltb, leb, add32, if◌then◌else◌,
  Res, ok, err, panic, ◌>>=◌, slice,
}

-- A header; `codec_type`, `compression` and `stream_flag` are bytes, the texts are their bytes.
pub record Header : Type 0 where
  pub request_id : ℕ
  pub service_name : List ℕ
  pub method_name : List ℕ
  pub error : List ℕ
  pub codec_type : ℕ
  pub compression : ℕ
  pub stream_flag : ℕ

pub record Message : Type 0 where
  pub header : Option Header
  pub body : List ℕ

-- The errors that the code makes, and those of the packages that it calls.
pub data Error : Type 0 where
  header_is_nil : Error
  data_too_short : Error
  invalid_magic_number : Error
  packet_too_large : Error
  incomplete_packet : Error
  compressor_not_found : Error
  foreign : ℕ → Error

pub record Compressor : Type 0 where
  pub compress : List ℕ → Res Error (List ℕ)
  pub decompress : List ℕ → Res Error (List ℕ)

-- encoding/json on a header, and compress/gzip.
pub record Packages : Type 0 where
  pub marshal : Header → Res Error (List ℕ)
  pub unmarshal : List ℕ → Res Error Header
  pub gzip : Compressor

abbrev pub compression_none : ℕ
compression_none = 0

abbrev pub compression_gzip : ℕ
compression_gzip = 1

abbrev pub magic : ℕ
magic = 4660

-- binary.BigEndian
abbrev pub put16 : ℕ → List ℕ
put16 n = n / 256 % 256 ∷ n % 256 ∷ []

abbrev pub put32 : ℕ → List ℕ
put32 n = n / 16777216 % 256 ∷ n / 65536 % 256 ∷ n / 256 % 256 ∷ n % 256 ∷ []

abbrev pub get16 : List ℕ → Res Error ℕ
get16 (a ∷ b ∷ more) = ok (a * 256 + b)
get16 few = panic

abbrev pub get32 : List ℕ → Res Error ℕ
get32 (a ∷ b ∷ c ∷ e ∷ more) = ok (a * 16777216 + b * 65536 + c * 256 + e)
get32 few = panic

-- `make([]byte, n)`
abbrev pub zeros : ℕ → List ℕ
zeros zero = []
zeros (suc n) = 0 ∷ zeros n

-- `copy(buf[i:], src)`
unfoldable pub copy_at : List ℕ → ℕ → List ℕ → Res Error (List ℕ)
copy_at buf i src =
    if leb i (length buf)
    then ok (take i buf ++ take (length buf - i) src ++ drop (i + length src) buf)
    else panic

-- Put bytes into `buf[i:i + n]`, where `n` is how many they are.
unfoldable pub put_at : List ℕ → ℕ → List ℕ → Res Error (List ℕ)
put_at buf i src = if leb (i + length src) (length buf) then copy_at buf i src else panic

module _ (p : Packages) where
  -- The registry as `init` leaves it.
  abbrev pub compressors : List (ℕ × Compressor)
  compressors = (compression_gzip, p.gzip) ∷ []

  abbrev pub get_compressor : ℕ → Option Compressor
  get_compressor t = lookup t compressors

  unfoldable pub compress : List ℕ → ℕ → Res Error (List ℕ)
  compress data_ t = elim (get_compressor t) [
    | none ↦ err compressor_not_found
    | some c ↦ c.compress data_
  ]

  unfoldable pub decompress : List ℕ → ℕ → Res Error (List ℕ)
  decompress data_ t = elim (get_compressor t) [
    | none ↦ err compressor_not_found
    | some c ↦ c.decompress data_
  ]

  -- Lengths are `uint32`. The JSON codec is always registered.
  unfoldable pub encode_with : Header → List ℕ → Res Error (List ℕ)
  encode_with header body = do
    body_bytes ←
        if nat_beq header.compression compression_none
        then ok body
        else compress body header.compression
    header_bytes ← p.marshal header
    let header_len = length header_bytes % 2 ^ 32
    let body_len = length body_bytes % 2 ^ 32
    let total = (10 + header_len + body_len) % 2 ^ 32
    with_magic ← put_at (zeros total) 0 (put16 magic)
    with_header_len ← put_at with_magic 2 (put32 header_len)
    with_body_len ← put_at with_header_len 6 (put32 body_len)
    with_header ← copy_at with_body_len 10 header_bytes
    copy_at with_header (add32 10 header_len) body_bytes

  unfoldable pub encode : Message → Res Error (List ℕ)
  encode msg = elim msg.header [
    | none ↦ err header_is_nil
    | some header ↦ encode_with header msg.body
  ]

  -- What follows the checks of the lengths.
  unfoldable pub decode_with : List ℕ → ℕ → ℕ → Res Error Message
  decode_with packet header_len body_len = do
    header_bytes ← slice packet 10 (add32 10 header_len)
    header ← p.unmarshal header_bytes
    body_bytes ← slice packet (add32 10 header_len) (add32 (add32 10 header_len) body_len)
    body ←
        if nat_beq header.compression compression_none
        then ok body_bytes
        else decompress body_bytes header.compression
    ok (record { header = some header; body = body })

  unfoldable pub decode : List ℕ → Res Error Message
  decode packet = if ltb (length packet) 10 then err data_too_short else do
    magic_bytes ← slice packet 0 2
    found ← get16 magic_bytes
    header_len_bytes ← slice packet 2 6
    header_len ← get32 header_len_bytes
    body_len_bytes ← slice packet 6 10
    body_len ← get32 body_len_bytes
    if not (nat_beq found magic)
        then err invalid_magic_number
        else if ltb (2 ^ 63 - 1) (10 + header_len + body_len)
        then err packet_too_large
        else if ltb (length packet) (10 + header_len + body_len)
        then err incomplete_packet
        else decode_with packet header_len body_len

-- `DecodeHeaderLen` and `DecodeBodyLen`
unfoldable pub decode_len : List ℕ → Res Error ℕ
decode_len bytes = if ltb (length bytes) 4 then ok 0 else get32 bytes

-- The loop of `PacketBuffer.Read` that drops bytes until the buffer starts with the magic number.
unfoldable pub skip_to_magic : List ℕ → List ℕ
skip_to_magic [] = []
skip_to_magic (a ∷ []) = a ∷ []
skip_to_magic (a ∷ b ∷ more) =
    let later = skip_to_magic (b ∷ more) in
    if nat_beq (a * 256 + b) magic then a ∷ b ∷ more else later

-- `PacketBuffer.Read`: the packet, if the buffer has one, and the buffer after it.
unfoldable pub buffer_read : List ℕ → Res Error (Option (List ℕ) × List ℕ)
buffer_read bytes =
    let buf = skip_to_magic bytes in
    if ltb (length buf) 10 then ok (none, buf) else do
      header_len_bytes ← slice buf 2 6
      header_len ← decode_len header_len_bytes
      body_len_bytes ← slice buf 6 10
      body_len ← decode_len body_len_bytes
      let total_len = 10 + header_len + body_len
      if ltb (length buf) total_len
          then ok (none, buf)
          else ok (some (take total_len buf), drop total_len buf)

-- `TCPConnection.Read`: `chunks` is what the reader is going to return, then it fails. The result
-- has the buffer and the chunks that are left.
unfoldable pub connection_read :
    Packages → Error → List ℕ → List (List ℕ) → Res Error (Message × List ℕ × List (List ℕ))
connection_read p failure bytes [] = do
  (packet, buf) ← buffer_read bytes
  elim packet [ none ↦ err failure | some found ↦ decode p found >>= λ msg. ok (msg, buf, []) ]
connection_read p failure bytes (chunk ∷ chunks) = do
  (packet, buf) ← buffer_read bytes
  elim packet [
    | none ↦ connection_read p failure (buf ++ chunk) chunks
    | some found ↦ decode p found >>= λ msg. ok (msg, buf, chunk ∷ chunks)
  ]
