-- ===== src/Tests/Bodies.antt =====
-- Capabilities, frames and request bodies.
use locho.Base.{
  ◌≢◌, ℕ, zero, suc, ◌≤◌, ◌<◌, ◌++◌, List, [], ◌∷◌, none, some, Bytes, codes, ◌≡◌, ◌↔◌, refl, arith,
  concat, length, ok, err,
}
use locho.Service.{tcp, is_safe_service_name, is_service_byte}
use locho.Capability.{Capability, format, parse, parse_parts}
use locho.Capability.RoundTrip.{IsValid, parse-format, parse-eq-ok}
use locho.Wire.{
  Codec, write_json_head, read_json_head, write_body_chunk, read_body_chunk, to_be_bytes,
  chunk_exceeds_limit, read_chunk_length, max_body_len,
}
use locho.Wire.RoundTrip.{read_json_head-write_json_head, read_body_chunk_oversized}
use locho.Upload.{
  no_fuel, Frame, bytes, trailers, upload_chunked, upload_declared, receive_body, receive_declared,
  content, wire, write_pieces, contains_trailers, receive_limit, truncated,
}
use locho.Upload.Chunked.{receive_body-upload_chunked, receive_body_of_failed_upload}
use locho.Upload.Complete.{IsWhole, upload_chunked_iff}
use locho.Upload.Fuel.{receive_body_ends}
use locho.Upload.Declared.{receive_declared_lem, receive_body-upload_declared}

abbrev ssh : Capability
ssh = record { service = codes "ssh"; service_type = tcp; secret = codes "s3" }

ssh-IsValid : IsValid ssh
unfolding is_safe_service_name is_service_byte
ssh-IsValid = record { safe = refl; has_secret = refl; one_part = refl }

parse-format_example : parse (format (codes "ssh") tcp (codes "s3")) ≡ ok ssh
parse-format_example = parse-format ssh ssh-IsValid

parsed : parse (codes "ssh:tcp:s3") ≡ ok ssh
unfolding parse parse_parts is_safe_service_name is_service_byte
parsed = refl

parse-eq-ok_example : IsValid ssh × (format (codes "ssh") tcp (codes "s3") ≡ codes "ssh:tcp:s3")
parse-eq-ok_example = parse-eq-ok (codes "ssh:tcp:s3") parsed

-- A codec that writes a text as it is.
abbrev plain : Codec Bytes
plain = record { to_vec = λ b. some b; from_slice = λ b. some b }

abbrev framed : Bytes
framed = 0 ∷ 0 ∷ 0 ∷ 2 ∷ 7 ∷ 9 ∷ []

head_written : write_json_head plain (7 ∷ 9 ∷ []) ≡ ok framed
unfolding write_json_head to_be_bytes
head_written = refl

read_json_head-write_json_head_example :
    read_json_head plain 8 (framed ++ (5 ∷ [])) ≡ ok (7 ∷ 9 ∷ [], 5 ∷ [])
read_json_head-write_json_head_example =
    read_json_head-write_json_head plain 8 (7 ∷ 9 ∷ []) (5 ∷ []) refl refl (omega arith)
      head_written

copies : ℕ → Bytes
copies zero = []
copies (suc n) = 7 ∷ copies n

length-copies : (n : ℕ) → length (copies n) ≡ n
unfolding copies
length-copies zero = refl
length-copies (suc n) = ground (arith, length-copies n)

read_body_chunk_oversized_example :
    (out : Bytes) × (write_body_chunk (copies 16385) ≡ ok out)
    × (read_body_chunk (out ++ []) ≡ err chunk_exceeds_limit)
read_body_chunk_oversized_example =
    read_body_chunk_oversized (copies 16385) [] (omega (arith, length-copies 16385))
      (omega (arith, length-copies 16385))

abbrev two_frames : List Frame
two_frames = bytes (1 ∷ 2 ∷ []) ∷ bytes (3 ∷ []) ∷ []

two_sent : (upload_chunked 0 two_frames).1 ≡ ok tt
unfolding upload_chunked
two_sent = refl

three_sent : (upload_declared 3 0 two_frames).1 ≡ ok tt
unfolding upload_declared
three_sent = refl

receive_body-upload_chunked_example :
    (ps : List Bytes) × (receive_body none ((upload_chunked 0 two_frames).0 ++ (9 ∷ []))
      ≡ (ps, ok (9 ∷ [])))
    × (concat ps ≡ content two_frames)
receive_body-upload_chunked_example = receive_body-upload_chunked two_frames (9 ∷ []) two_sent

abbrev broken : List Frame
broken = bytes (1 ∷ 2 ∷ []) ∷ trailers ∷ []

broken_off : (upload_chunked 0 broken).1 ≡ err contains_trailers
unfolding upload_chunked
broken_off = refl

receive_body_of_failed_upload_example :
    (ps : List Bytes) × (receive_body none (upload_chunked 0 broken).0
      ≡ (ps, err (wire read_chunk_length)))
    × ((upload_chunked 0 broken).0 ≡ write_pieces ps)
    × (unsent : Bytes) × (content broken ≡ concat ps ++ unsent)
receive_body_of_failed_upload_example =
    receive_body_of_failed_upload broken contains_trailers broken_off

receive_declared_lem_example :
    (max_body_len < 2 → receive_declared 2 (7 ∷ 9 ∷ 5 ∷ []) ≡ ([], err receive_limit))
    × (2 ≤ max_body_len
        → 3 < 2
        → (ps : List Bytes) × (receive_declared 2 (7 ∷ 9 ∷ 5 ∷ []) ≡ (ps, err truncated))
          × (rest : Bytes) × (7 ∷ 9 ∷ 5 ∷ [] ≡ concat ps ++ rest))
    × (2 ≤ max_body_len
        → 2 ≤ 3
        → (ps : List Bytes) × (receive_declared 2 (7 ∷ 9 ∷ 5 ∷ []) ≡ (ps, ok (5 ∷ [])))
          × (concat ps ≡ 7 ∷ 9 ∷ []))
receive_declared_lem_example = receive_declared_lem 2 (7 ∷ 9 ∷ 5 ∷ [])

receive_body-upload_declared_example :
    (ps : List Bytes) × (receive_body (some 3) ((upload_declared 3 0 two_frames).0 ++ (9 ∷ []))
      ≡ (ps, ok (9 ∷ [])))
    × (concat ps ≡ content two_frames)
receive_body-upload_declared_example =
    receive_body-upload_declared two_frames 3 (9 ∷ []) (omega arith) three_sent

upload_chunked_iff_example :
    ((upload_chunked 0 two_frames).1 ≡ ok tt)
    ↔ (IsWhole two_frames × (length (content two_frames) ≤ max_body_len))
upload_chunked_iff_example = upload_chunked_iff two_frames

receive_body_ends_example : (receive_body none (0 ∷ 0 ∷ 0 ∷ 1 ∷ 9 ∷ [])).1 ≢ err no_fuel
receive_body_ends_example = receive_body_ends (0 ∷ 0 ∷ 0 ∷ 1 ∷ 9 ∷ [])
