-- ===== src/Session/Authorize.antt =====
-- The handshake of a TCP stream, from the side that holds the capability.
use locho.Base.{
  ℕ, ◌≤◌, Bool, true, false, not, ◌||◌, ◌&&◌, ◌++◌, List, [], ◌∷◌, Option, none, some, Bytes, leb,
  ◌==◌, length, ◌≡◌, arith, Result, ok, err, ◌>>=◌, ◌>>◌, bail_if, map_err, Checked, if◌then◌else◌,
}
use locho.Wire.{
  StreamRequestHead, LochoResponseHead, Codec, protocol_version, max_head_len, write_json_head,
  read_json_head,
}
use locho.Wire.RoundTrip.{read_json_head-write_json_head}
use locho.Capability.{Capability}
use locho.Auth.{secret_proof}
use locho.Host.{empty_response}
use locho.Session.Status.{SessionError, protocol, service_rejected, transport, handshake}

abbrev is_none_or_positive : Option ℕ → Bool
is_none_or_positive (some n) = not (n == 0)
is_none_or_positive none = true

abbrev is_empty : List (Bytes × Bytes) → Bool
is_empty [] = true
is_empty (h ∷ hs) = false

-- `authorize_tcp` once the response head is read.
check_response : LochoResponseHead → Checked SessionError
check_response response = do
  bail_if
      (not (response.version == protocol_version)
        || not (leb 100 response.status && leb response.status 599))
      protocol
  bail_if (not (response.status == 200)) (service_rejected response.status)
  bail_if (is_none_or_positive response.body_len || not (is_empty response.headers)) protocol

module _ (digest_hex : Bytes → Bytes) (requests : Codec StreamRequestHead)
    (responses : Codec LochoResponseHead) where
  abbrev pub request_of : Capability → StreamRequestHead
  request_of capability = StreamRequestHead.tcp (record {
    version = protocol_version;
    service = capability.service;
    secret_proof = secret_proof digest_hex capability.secret;
  })

  -- The bytes that are written, and those that are left to read. A failure of the writer is not
  -- modelled.
  pub authorize_tcp : Capability → Bytes → Result SessionError (Bytes × Bytes)
  unfolding check_response
  authorize_tcp capability reader = do
    written ← map_err (write_json_head requests (request_of capability)) (transport handshake)
    (response, rest) ← map_err (read_json_head responses max_head_len reader) protocol
    check_response response
    ok (written, rest)

  -- Against a host that answers with an empty response of a status from 100 to 599, which its codec
  -- writes within the limit and decodes, and with a request that can be written, the handshake succeeds exactly at status
  -- 200, with the stream left right behind the response; any other status is reported as it is.
  pub authorize_tcp_answered :
      (capability : Capability) (status : ℕ) {written json out : Bytes} (rest : Bytes)
      → write_json_head requests (request_of capability) ≡ ok written
      → 100 ≤ status
      → status ≤ 599
      → responses.to_vec (empty_response status) ≡ some json
      → responses.from_slice json ≡ some (empty_response status)
      → length json ≤ max_head_len
      → write_json_head responses (empty_response status) ≡ ok out
      → authorize_tcp capability (out ++ rest)
        ≡ (if status == 200 then ok (written, rest) else err (service_rejected status))
  unfolding authorize_tcp check_response
  authorize_tcp_answered capability status {out = out} rest sent low high e d fits w =
      rw
        (
          sent,
          read_json_head-write_json_head responses max_head_len (empty_response status) rest e d
              fits w,
        )
        (ground arith)
