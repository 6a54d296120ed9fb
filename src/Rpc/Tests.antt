-- ===== src/Rpc/Tests.antt =====
-- Runs of the RPC library, and the theorems at concrete inputs.
use yukino_go.Base.{
  ℕ, ◌*◌, ◌/◌, ◌≤◌, ◌≡◌, ◌≢◌, refl, arith, true, false, some, List, [], ◌∷◌, ◌++◌, Res, ok, err,
  ◌>>=◌, leb,
}
use yukino_go.Rpc.Breaker.{
  Float, CircuitBreaker, new_circuit_breaker, allow, record_success, record_failure, closed, opened,
  to_open, to_closed, reset_counts, reset_closed_window_if_ready,
}
use yukino_go.Rpc.Breaker.Valid.{
  IsValid, fails, handle, handle-IsValid, let_through, let_through-probe,
}
use yukino_go.Rpc.Breaker.Window.{outcomes}
use yukino_go.Rpc.Limiter.{
  TokenBucket, new_token_bucket, allowed, allowed-no_tick, allowed-le, asks, ticks, stops,
}
use yukino_go.Rpc.Protocol.{
  Header, Packages, Error, compression_gzip, foreign, compress, encode, decode, connection_read,
  encode_with, copy_at, put_at,
}
use yukino_go.Rpc.Protocol.Framing.{concat, connection_read-encode}
use yukino_go.Rpc.Protocol.Wire.{ReadsBack, decode-encode}

-- A threshold in percent stands for the float.
instance abbrev percent : Float ℕ
percent = record { ratio = λ n total. n * 100 / total; at_least = λ a b. leb b a }

-- A window of three, a threshold of 60 percent and a timeout of five.
abbrev fresh : CircuitBreaker ℕ
fresh = new_circuit_breaker 0 3 60 5

abbrev tripped : CircuitBreaker ℕ
tripped = outcomes ((1, true) ∷ (2, false) ∷ (3, true) ∷ []) fresh

tripped_run : (tripped.state ≡ opened) × (let_through (4 ∷ 9 ∷ 10 ∷ []) tripped ≡ 1)
unfolding allow record_success record_failure to_open to_closed reset_counts
    reset_closed_window_if_ready
tripped_run = (refl, refl)

tripped-IsValid : IsValid tripped
unfolding allow record_success record_failure to_open to_closed reset_counts
    reset_closed_window_if_ready
tripped-IsValid = (refl, refl)

tripped_is_open : tripped.state ≢ closed
unfolding allow record_success record_failure to_open to_closed reset_counts
    reset_closed_window_if_ready
tripped_is_open = λ e. cc

let_through-probe_example : let_through (4 ∷ 9 ∷ 10 ∷ []) tripped ≤ 1
let_through-probe_example =
    let_through-probe (4 ∷ 9 ∷ 10 ∷ []) tripped tripped-IsValid tripped_is_open

handle-IsValid_example : IsValid (handle tripped (fails 9))
handle-IsValid_example = handle-IsValid tripped (fails 9) tripped-IsValid

abbrev bucket : TokenBucket
bucket = new_token_bucket 2

allowed-no_tick_example : allowed (asks ∷ asks ∷ stops ∷ asks ∷ []) bucket ≡ 2
allowed-no_tick_example = allowed-no_tick (asks ∷ asks ∷ stops ∷ asks ∷ []) bucket refl

allowed-le_example : allowed (asks ∷ asks ∷ asks ∷ ticks ∷ asks ∷ []) bucket ≤ 4
allowed-le_example = allowed-le (asks ∷ asks ∷ asks ∷ ticks ∷ asks ∷ []) bucket

-- Packages for runs: a header is written as its request id and its compression, and compression puts
-- a byte in front.
abbrev read_header : List ℕ → Res Error Header
read_header (id ∷ compression ∷ []) = ok (record {
  request_id = id;
  service_name = [];
  method_name = [];
  error = [];
  codec_type = 1;
  compression = compression;
  stream_flag = 0;
})
read_header other = err (foreign 0)

abbrev unpacked : List ℕ → Res Error (List ℕ)
unpacked [] = err (foreign 1)
unpacked (mark ∷ plain) = ok plain

abbrev toy : Packages
toy = record {
  marshal = λ h. ok (h.request_id ∷ h.compression ∷ []);
  unmarshal = read_header;
  gzip = record { compress = λ plain. ok (31 ∷ plain); decompress = unpacked };
}

abbrev request : Header
request = record {
  request_id = 7;
  service_name = [];
  method_name = [];
  error = [];
  codec_type = 1;
  compression = compression_gzip;
  stream_flag = 0;
}

toy-ReadsBack : ReadsBack toy request
toy-ReadsBack = record {
  unmarshal-marshal = λ bytes e. let b : bytes ≡ 7 ∷ 1 ∷ [] = cc in rw b;
  decompress-compress = λ plain bytes e. let b : bytes ≡ 31 ∷ plain = cc in rw b;
}

decode-encode_example :
    (encode toy (record { header = some request; body = 1 ∷ 2 ∷ [] }) >>= decode toy)
    ≡ ok (record { header = some request; body = 1 ∷ 2 ∷ [] })
decode-encode_example =
    decode-encode toy request (1 ∷ 2 ∷ []) (7 ∷ 1 ∷ []) (31 ∷ 1 ∷ 2 ∷ []) toy-ReadsBack refl
      (unfold compress in refl) (omega arith)

-- The packet of that request, in three pieces, with the beginning of another.
connection_read-encode_example :
    (after : List ℕ × List (List ℕ)) × (connection_read toy (foreign 9) (18 ∷ []) (
        (52 ∷ 0 ∷ 0 ∷ 0 ∷ 2 ∷ 0 ∷ 0 ∷ 0 ∷ []) ∷ (3 ∷ 7 ∷ 1 ∷ 31 ∷ 1 ∷ 2 ∷ 18 ∷ []) ∷ (52 ∷ []) ∷ [])
      ≡ ok (record { header = some request; body = 1 ∷ 2 ∷ [] }, after.0, after.1))
    × (after.0 ++ concat after.1 ≡ 18 ∷ 52 ∷ [])
connection_read-encode_example =
    connection_read-encode toy (foreign 9) request (1 ∷ 2 ∷ []) (7 ∷ 1 ∷ []) (31 ∷ 1 ∷ 2 ∷ [])
      (18 ∷ 52 ∷ 0 ∷ 0 ∷ 0 ∷ 2 ∷ 0 ∷ 0 ∷ 0 ∷ 3 ∷ 7 ∷ 1 ∷ 31 ∷ 1 ∷ 2 ∷ []) (18 ∷ 52 ∷ []) (18 ∷ [])
      ((52 ∷ 0 ∷ 0 ∷ 0 ∷ 2 ∷ 0 ∷ 0 ∷ 0 ∷ []) ∷ (3 ∷ 7 ∷ 1 ∷ 31 ∷ 1 ∷ 2 ∷ 18 ∷ []) ∷ (52 ∷ []) ∷ [])
      toy-ReadsBack refl (unfold compress in refl) (omega arith)
      (unfold encode encode_with compress copy_at put_at in refl) refl
