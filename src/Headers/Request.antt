-- ===== src/Headers/Request.antt =====
-- The messages that are made from received header pairs: the request of the beginning of
-- `forward_to_upstream_with_state` (src/host.rs), and the headers at the end of
-- `tunnel_request_on_lease` (src/attach.rs). The parsers of the crate `http`, the setters of the
-- crate `url` and the printing of a header's number are parameters.
use locho.Base.{
  ℕ, Bool, false, not, List, [], ◌∷◌, Option, none, some, Bytes, codes, ◌==◌, if◌then◌else◌, Result,
  ok, err,
}
use locho.Headers.{is_hop_by_hop_header}
use locho.Headers.Upstream.{JoinError, join_upstream_url, pairs_to_headers}

-- `parse_name` gives a name in lower case; `decimal` is the value of a header that is a number.
pub record HttpCrates (Url : Type 0) : Type 0 where
  pub set_path : Bytes → Url → Url
  pub set_query : Option Bytes → Url → Url
  pub parse_name : Bytes → Option Bytes
  pub parse_value : Bytes → Option Bytes
  pub parse_method : Bytes → Option Bytes
  pub decimal : ℕ → Bytes

-- `has_body`: the request is sent with a stream as its body.
pub record UpstreamRequest (Url : Type 0) : Type 0 where
  pub url : Url
  pub method : Bytes
  pub headers : List (Bytes × Bytes)
  pub has_body : Bool

pub data BuildError : Type 0 where
  bad_target : JoinError → BuildError
  invalid_method : BuildError

abbrev pub without_hop_by_hop : List (Bytes × Bytes) → List (Bytes × Bytes)
without_hop_by_hop [] = []
without_hop_by_hop ((name, value) ∷ headers) =
    let rest = without_hop_by_hop headers in
    if is_hop_by_hop_header name then rest else (name, value) ∷ rest

abbrev pub is_zero_len : Option ℕ → Bool
is_zero_len none = false
is_zero_len (some len) = len == 0

module _ {Url : Type 0} (http : HttpCrates Url) where
  abbrev pub length_header : Option ℕ → List (Bytes × Bytes) → List (Bytes × Bytes)
  length_header none headers = headers
  length_header (some len) headers = (codes "content-length", http.decimal len) ∷ headers

  -- The pairs that can be parsed, but for the headers of the connection that they came by.
  unfoldable pub kept_pairs : List (Bytes × Bytes) → List (Bytes × Bytes)
  unfolding pairs_to_headers
  kept_pairs pairs = without_hop_by_hop (pairs_to_headers http.parse_name http.parse_value pairs)

  abbrev pub built : Bytes → List (Bytes × Bytes) → Option ℕ → Bytes → Url → UpstreamRequest Url
  built path_and_query headers body_len method url = record {
    url = url;
    method = method;
    headers = length_header body_len (kept_pairs headers);
    has_body = not (is_zero_len body_len);
  }

  -- The beginning of `forward_to_upstream_with_state`, up to the sending of the request.
  unfoldable pub upstream_request :
      Url
      → Bytes
      → Bytes
      → List (Bytes × Bytes)
      → Option ℕ
      → Result BuildError (UpstreamRequest Url)
  unfolding join_upstream_url kept_pairs
  upstream_request upstream path_and_query method headers body_len =
      elim (join_upstream_url http.set_path http.set_query upstream path_and_query) [
        | err e ↦ err (bad_target e)
        | ok url ↦ elim (http.parse_method method) [
          | none ↦ err invalid_method
          | some m ↦ ok (built path_and_query headers body_len m url)
        ]
      ]
