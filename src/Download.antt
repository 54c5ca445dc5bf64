-- ===== src/Download.antt =====
-- The response of a tunnelled HTTP request, from the host to the attaching side: the end of
-- `forward_to_upstream_with_state` (src/host.rs) and of `tunnel_request_on_lease` (src/attach.rs).
-- What was written before a failure has been sent, and what was yielded before one was delivered.
pub mod Whole
pub mod Declared
use locho.Base.{
  ℕ, zero, suc, ◌+◌, ◌-◌, min, Bool, true, false, not, ◌++◌, List, [], ◌∷◌, Option, none, some,
  Bytes, is_some, ltb, ◌==◌, within, length, concat, All, if◌then◌else◌, Result, ok, err, ◌>>=◌,
  ◌>>◌, bail_if,
}
use locho.Wire.{
  WireError, Codec, LochoResponseHead, protocol_version, max_body_len, max_head_len, body_chunk_len,
  to_be_bytes, write_body, write_body_end, write_json_head, read_json_head, read_exact,
  read_body_chunk,
}
use locho.Headers.Request.{HttpCrates, kept_pairs}

-- What the response of the upstream yields: a chunk of its body, or an error.
abbrev pub Upstream : Type 0
Upstream = List (Option Bytes)

pub data SendError : Type 0 where
  head_not_written : WireError → SendError
  upstream_failed exceeds_limit : SendError

abbrev pub Sent : Type 0
Sent = Bytes × Result SendError Unit

abbrev pub after_writing : Bytes → Sent → Sent
after_writing out sent = (out ++ sent.0, sent.1)

-- `write_body` where the length is declared, else `write_body_chunk`: a chunk within the limit of
-- the body is short enough for it.
abbrev pub write_chunk : Bool → Bytes → Bytes
write_chunk true chunk = write_body chunk
write_chunk false chunk = to_be_bytes (length chunk) ++ chunk

-- The loop over the body of the upstream's response, and what is written behind it.
unfoldable pub send_body : Bool → ℕ → Upstream → Sent
send_body is_declared total [] = (if is_declared then [] else write_body_end, ok tt)
send_body is_declared total (none ∷ upstream) = ([], err upstream_failed)
send_body is_declared total (some chunk ∷ upstream) =
    let rest = send_body is_declared (total + length chunk) upstream in
    if ltb max_body_len (total + length chunk)
    then ([], err exceeds_limit)
    else after_writing (write_chunk is_declared chunk) rest

abbrev pub exceeds : Option ℕ → Bool
exceeds none = false
exceeds (some len) = ltb max_body_len len

abbrev pub response_head : ℕ → List (Bytes × Bytes) → Option ℕ → LochoResponseHead
response_head status headers body_len = record {
  version = protocol_version;
  status = status;
  headers = headers;
  body_len = body_len;
}

unfoldable pub send_response :
    Codec LochoResponseHead → ℕ → List (Bytes × Bytes) → Option ℕ → Upstream → Sent
unfolding send_body
send_response codec status headers body_len upstream =
    if exceeds body_len
    then ([], err exceeds_limit)
    else elim (write_json_head codec (response_head status headers body_len)) [
      | err e ↦ ([], err (head_not_written e))
      | ok out ↦ after_writing out (send_body (is_some body_len) 0 upstream)
    ]

pub data DeliverError : Type 0 where
  head_not_read chunk_not_read : WireError → DeliverError
  unsupported_version invalid_status body_read_failed no_fuel : DeliverError

-- The frames that the stream yields, and how it ends.
abbrev pub Stream : Type 0
Stream = List Bytes × Result DeliverError Unit

abbrev pub after_yield : Bytes → Stream → Stream
after_yield frame stream = (frame ∷ stream.0, stream.1)

-- `while remaining > 0 { … yield … }`
unfoldable pub deliver_remaining : ℕ → ℕ → Bytes → Stream
deliver_remaining zero remaining reader = ([], err no_fuel)
deliver_remaining (suc fuel) remaining reader =
    let count = min remaining body_chunk_len in
    elim (remaining == 0) [
      | true ↦ ([], ok tt)
      | false ↦ elim (read_exact count reader) [
        | none ↦ ([], err body_read_failed)
        | some (piece, reader1) ↦
            after_yield piece (deliver_remaining fuel (remaining - count) reader1)
      ]
    ]

-- `loop { … let Some(chunk) = chunk else { break }; yield … }`
unfoldable pub deliver_chunked : ℕ → Bytes → Stream
deliver_chunked zero reader = ([], err no_fuel)
deliver_chunked (suc fuel) reader = elim (read_body_chunk reader) [
  | err e ↦ ([], err (chunk_not_read e))
  | ok (none, reader1) ↦ ([], ok tt)
  | ok (some chunk, reader1) ↦ after_yield chunk (deliver_chunked fuel reader1)
]

unfoldable pub deliver_body : Option ℕ → Bytes → Stream
unfolding deliver_remaining deliver_chunked
deliver_body (some len) reader = deliver_remaining (suc len) len reader
deliver_body none reader = deliver_chunked (suc (length reader)) reader

-- The response for the local client.
pub record LocalResponse : Type 0 where
  pub status : ℕ
  pub headers : List (Bytes × Bytes)
  pub body : Stream

abbrev pub local_response : ℕ → List (Bytes × Bytes) → Stream → LocalResponse
local_response status headers body = record { status = status; headers = headers; body = body }

module _ {Url : Type 0} (crates : HttpCrates Url) where
  -- From the head of the response on; a status is one that `StatusCode::from_u16` takes.
  unfoldable pub deliver_behind :
      Result WireError (LochoResponseHead × Bytes) → Result DeliverError LocalResponse
  unfolding deliver_body
  deliver_behind (err e) = err (head_not_read e)
  deliver_behind (ok (head, reader)) =
      if not (head.version == protocol_version)
      then err unsupported_version
      else if not (within 100 999 head.status)
      then err invalid_status
      else ok (
          local_response head.status (kept_pairs crates head.headers)
            (deliver_body head.body_len reader))

  unfoldable pub deliver_response :
      Codec LochoResponseHead → Bytes → Result DeliverError LocalResponse
  unfolding deliver_behind
  deliver_response codec reader = deliver_behind (read_json_head codec max_head_len reader)

-- The chunks that arrive from upstream.
abbrev pub arrived : Upstream → List Bytes
arrived [] = []
arrived (none ∷ upstream) = arrived upstream
arrived (some chunk ∷ upstream) = chunk ∷ arrived upstream
