-- ===== src/Tests/Responses.antt =====
-- Requests and responses of the web client, and a response through the tunnel.
use locho.Base.{
  concat, ℕ, suc, ◌+◌, ◌≤◌, Bool, true, false, ◌++◌, List, [], ◌∷◌, Option, none, some, Bytes,
  codes, length, All, lacks, ◌≡◌, refl, arith, ok, err,
}
use locho.Wire.{Codec, LochoResponseHead, read_chunk_length}
use locho.Download.{
  send_body, Upstream, SendError, response_head, send_response, local_response, deliver_response,
  deliver_body, chunk_not_read, arrived,
}
use locho.Download.Declared.{deliver_body-send_body}
use locho.Headers.Request.{HttpCrates, kept_pairs}
use locho.Download.Whole.{deliver_response-send_response}
use locho.WebHttp.Reader.{piece, Reader, line_from}
use locho.WebHttp.Body.{max_head, crlf, chunked}
use locho.WebHttp.Body.Lines.{flat, line_of, flattened, line_from-refines}
use locho.WebHttp.Body.Chunked.{Chunk, content}
use locho.WebHttp.Request.{Request, Grammar, encode}
use locho.WebHttp.Request.Sending.{lines, encode-lines}
use locho.WebHttp.Framed.{framed}
use locho.WebHttp.Framed.Unambiguous.{Agrees, framed-Agrees}
use locho.WebHttp.Head.{Parsed, Answer, read, final_head}
use locho.WebHttp.Head.Returns.{Finished, final_head-Finished}
use locho.WebHttp.Head.Reads.{read-sent}

abbrev usize_max : ℕ
usize_max = 4294967295

-- A response in one chunk, whose bytes arrive in three pieces.
abbrev head_lines_sent : List Bytes
head_lines_sent =
    (codes "HTTP/1.1 200 OK" ++ crlf) ∷ (codes "Transfer-Encoding: chunked" ++ crlf) ∷ []

abbrev one_chunk : List Chunk
one_chunk = record { digits = codes "3"; bytes = codes "abc" } ∷ []

abbrev arriving : Reader
arriving =
    piece (codes "HTTP/1.1 200")
    ∷ piece (
        codes " OK"
        ++ (crlf ++ (codes "Transfer-Encoding: chunked" ++ (crlf ++ (crlf ++ codes "3")))))
    ∷ piece (crlf ++ (codes "abc" ++ (crlf ++ (codes "0" ++ (crlf ++ crlf)))))
    ∷ []

abbrev parse : Bytes → Option Parsed
parse text = some (record {
  is_complete = true;
  version = some 1;
  code = some 200;
  headers = (codes "Transfer-Encoding", codes "chunked") ∷ [];
})

abbrev is_name : Bytes → Bool
is_name = lacks 10

abbrev answer : Answer
answer = record {
  code = 200;
  fields = (codes "transfer-encoding", codes "chunked") ∷ [];
  field_count = 1;
}

abbrev get : Bytes
get = codes "GET"

is_framed : framed usize_max is_name get 200 answer.fields ≡ ok (chunked 0 false, [])
unfolding framed
is_framed = refl

line_from-refines_example : flattened (line_from 100 [] arriving) ≡ line_of 100 [] (flat arriving)
line_from-refines_example = line_from-refines 100 [] arriving tt (omega arith)

framed-Agrees_example : All (Agrees usize_max is_name (chunked 0 false)) answer.fields
framed-Agrees_example = framed-Agrees usize_max is_name get 200 answer.fields is_framed

final_head-Finished_example : Finished (final_head parse 9 0 0 arriving)
final_head-Finished_example = final_head-Finished parse 9 0 0 arriving (omega arith)

read-sent_example :
    read parse usize_max is_name (suc (length (content one_chunk))) arriving get
    ≡ some (ok (record { status = 200; headers = [] }, codes "abc"))
read-sent_example =
    read-sent parse usize_max is_name (omega arith) get head_lines_sent one_chunk [] arriving answer
      [] ((refl, refl, refl), ((refl, refl, refl), tt)) (omega arith) refl refl is_framed
      ((refl, refl, refl, omega arith), tt) (omega arith) (omega arith) tt refl

abbrev grammar : Grammar
grammar = record {
  is_path_and_query = λ path. true;
  parse_authority = λ text. some (record { host = text; has_port = false; port_u16 = none });
  is_header_name = lacks 10;
  is_header_name-lacks = λ name h. h;
}

abbrev request : Request
request = record {
  method = codes "POST";
  path = codes "/a";
  authority = codes "host";
  headers = (codes "x-a", codes "b") ∷ [];
  timeout_ms = 1000;
}

abbrev request_head : Bytes
request_head =
    codes "POST /a HTTP/1.1"
    ++ (crlf
        ++ (codes "Host: host"
            ++ (crlf
                ++ (codes "Connection: close"
                    ++ (crlf
                        ++ (codes "Accept-Encoding: identity"
                            ++ (crlf
                                ++ (codes "Content-Length: 2"
                                    ++ (crlf ++ (codes "x-a: b" ++ (crlf ++ crlf)))))))))))

encoded : encode grammar request (codes "hi") ≡ ok (request_head ++ codes "hi")
unfolding encode
encoded = refl

encode-lines_example :
    (head : Bytes) × (request_head ++ codes "hi" ≡ head ++ codes "hi")
    × (lines head ≡ length request.headers + 6)
    × (length head ≤ max_head)
encode-lines_example = encode-lines grammar request (codes "hi") encoded

abbrev two_headers : List (Bytes × Bytes)
two_headers = (codes "x-a", codes "b") ∷ (codes "upgrade", codes "h2c") ∷ []

-- A codec for the one head of this response.
abbrev heads : Codec LochoResponseHead
heads = record {
  to_vec = λ head. some (codes "head");
  from_slice = λ json. some (response_head 200 two_headers none);
}

-- Names and values as they are; no URL is set.
abbrev crates : HttpCrates Unit
crates = record {
  set_path = λ path url. url;
  set_query = λ query url. url;
  parse_name = λ name. some name;
  parse_value = λ value. some value;
  parse_method = λ method. some method;
  decimal = λ n. (48 + n) ∷ [];
}

abbrev broken : Upstream
broken = some (codes "abc") ∷ none ∷ []

deliver_response-send_response_example :
    ((send_response heads 200 two_headers none broken).1 ≡ ok tt
      → deliver_response crates heads (send_response heads 200 two_headers none broken).0
        ≡ ok (local_response 200 (kept_pairs crates two_headers) (arrived broken, ok tt)))
    × ((e : SendError)
        → (send_response heads 200 two_headers none broken).1 ≡ err e
        → (ps : List Bytes) × (deliver_response crates heads
              (send_response heads 200 two_headers none broken).0
            ≡ ok (
                local_response 200
                  (kept_pairs crates two_headers)
                  (ps, err (chunk_not_read read_chunk_length)))))
deliver_response-send_response_example =
    deliver_response-send_response crates heads 200 two_headers (codes "head") refl refl
      (omega arith) refl broken ((omega arith, omega arith), tt)

abbrev whole_upstream : Upstream
whole_upstream = some (codes "abc") ∷ some (codes "d") ∷ []

whole_sent : (send_body true 0 whole_upstream).1 ≡ ok tt
unfolding send_body
whole_sent = refl

deliver_body-send_body_example :
    (pieces : List Bytes) × (deliver_body (some 4) (send_body true 0 whole_upstream).0
      ≡ (pieces, ok tt))
    × (concat pieces ≡ codes "abcd")
deliver_body-send_body_example = deliver_body-send_body whole_upstream (omega arith) whole_sent
