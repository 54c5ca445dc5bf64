-- ===== src/Wire.antt =====
-- crates/locho-core/src/protocol.rs: limits, stream heads, and the length-prefixed frames.
-- A reader is the list of bytes that still arrive before the end of the stream, a writer is the
-- list of bytes that a call appends. Transport failures other than an early end are not modelled.
pub mod RoundTrip
pub mod Idle
use locho.Base.{
  ℕ, ◌+◌, ◌*◌, ◌/◌, ◌%◌, ◌^◌, Bool, true, false, ◌++◌, List, [], ◌∷◌, Option, none, some, Bytes,
  ltb, ◌==◌, length, take, drop, if◌then◌else◌, Result, ok, err, ◌>>=◌, ◌>>◌, bail_if, ok_or,
}

abbrev pub protocol_version : ℕ
protocol_version = 3

abbrev pub max_body_len : ℕ
max_body_len = 32 * 1024 * 1024

abbrev pub max_head_len : ℕ
max_head_len = 1024 * 1024

abbrev pub body_chunk_len : ℕ
body_chunk_len = 16 * 1024

abbrev pub max_tcp_connections : ℕ
max_tcp_connections = 128

pub record TcpRequestHead : Type 0 where
  pub version : ℕ
  pub service : Bytes
  pub secret_proof : Bytes

pub record LochoRequestHead : Type 0 where
  pub version : ℕ
  pub service : Bytes
  pub secret_proof : Bytes
  pub method : Bytes
  pub path_and_query : Bytes
  pub headers : List (Bytes × Bytes)
  pub body_len : Option ℕ

pub data StreamRequestHead : Type 0 where
  http : LochoRequestHead → StreamRequestHead
  tcp : TcpRequestHead → StreamRequestHead

pub record LochoResponseHead : Type 0 where
  pub version : ℕ
  pub status : ℕ
  pub headers : List (Bytes × Bytes)
  pub body_len : Option ℕ

pub data WireError : Type 0 where
  serialize_header header_too_large read_header_length header_exceeds_limit : WireError
  read_header decode_header chunk_too_large read_chunk_length chunk_exceeds_limit : WireError
  read_chunk body_len_required body_exceeds_limit read_body : WireError

-- `serde_json` at one type: it is not part of the repository.
pub record Codec (A : Type 0) : Type 0 where
  pub to_vec : A → Option Bytes
  pub from_slice : Bytes → Option A

-- `u32::to_be_bytes`
unfoldable pub to_be_bytes : ℕ → Bytes
to_be_bytes n = n / 2 ^ 24 % 256 ∷ n / 2 ^ 16 % 256 ∷ n / 2 ^ 8 % 256 ∷ n % 256 ∷ []

-- `u32::from_be_bytes`
unfoldable pub from_be_bytes : Bytes → ℕ
from_be_bytes (a ∷ b ∷ c ∷ d ∷ []) = a * 2 ^ 24 + b * 2 ^ 16 + c * 2 ^ 8 + d
from_be_bytes _ = 0

-- `AsyncReadExt::read_exact`
unfoldable pub read_exact : ℕ → Bytes → Option (Bytes × Bytes)
read_exact n reader = if ltb (length reader) n then none else some (take n reader, drop n reader)

-- `u32::try_from(len)`
abbrev pub u32_try_from : ℕ → Option ℕ
u32_try_from n = if ltb n (2 ^ 32) then some n else none

unfoldable pub write_json_head : {A : Type 0} → Codec A → A → Result WireError Bytes
write_json_head codec value = do
  json ← ok_or (codec.to_vec value) serialize_header
  len ← ok_or (u32_try_from (length json)) header_too_large
  ok (to_be_bytes len ++ json)

unfoldable pub read_json_head : {A : Type 0} → Codec A → ℕ → Bytes → Result WireError (A × Bytes)
read_json_head codec max_len reader = do
  (prefix, reader1) ← ok_or (read_exact 4 reader) read_header_length
  let len = from_be_bytes prefix
  bail_if (ltb max_len len) header_exceeds_limit
  (body, reader2) ← ok_or (read_exact len reader1) read_header
  value ← ok_or (codec.from_slice body) decode_header
  ok (value, reader2)

abbrev pub write_body : Bytes → Bytes
write_body body = body

unfoldable pub write_body_chunk : Bytes → Result WireError Bytes
write_body_chunk body = do
  len ← ok_or (u32_try_from (length body)) chunk_too_large
  ok (to_be_bytes len ++ body)

unfoldable pub write_body_end : Bytes
write_body_end = to_be_bytes 0

unfoldable pub read_body_chunk : Bytes → Result WireError (Option Bytes × Bytes)
read_body_chunk reader = do
  (prefix, reader1) ← ok_or (read_exact 4 reader) read_chunk_length
  let len = from_be_bytes prefix
  bail_if (ltb body_chunk_len len) chunk_exceeds_limit
  if len == 0
      then ok (none, reader1)
      else do (body, reader2) ← ok_or (read_exact len reader1) read_chunk; ok (some body, reader2)

unfoldable pub read_body_with_limit : Option ℕ → ℕ → Bytes → Result WireError (Bytes × Bytes)
read_body_with_limit len max_len reader = do
  n ← ok_or len body_len_required
  bail_if (ltb max_len n) body_exceeds_limit
  ok_or (read_exact n reader) read_body
