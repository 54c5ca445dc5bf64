-- ===== src/WebHttp/Request.antt =====
-- The request that is sent. `Grammar` is what it uses of the crate `http`.
pub mod Sending
use locho.Base.{
  ℕ, zero, suc, ◌+◌, ◌*◌, ◌/◌, ◌%◌, Bool, true, false, not, ◌||◌, ◌&&◌, ◌++◌, List, [], ◌∷◌, Option,
  none, some, Bytes, codes, lowercase, str_eq, any, all, lacks, leb, ltb, ◌==◌, within, is_some,
  is_empty, length, strip_prefix, Result, ok, err, ok_or, ◌>>=◌, ◌>>◌, bail_if, checks, ◌≡◌,
}
use locho.WebHttp.Reader.{
  HttpError, invalid_timeout, invalid_method, invalid_body, invalid_path, invalid_authority,
  invalid_header, request_limit,
}
use locho.WebHttp.Body.{max_head, crlf}

abbrev pub max_request : ℕ
max_request = 4 * 1024 * 1024

abbrev pub max_fields : ℕ
max_fields = 100

pub record Request : Type 0 where
  pub method : Bytes
  pub path : Bytes
  pub authority : Bytes
  pub headers : List (Bytes × Bytes)
  pub timeout_ms : ℕ

-- `http::uri::Authority`, by what is asked of it.
pub record Authority : Type 0 where
  pub host : Bytes
  pub has_port : Bool
  pub port_u16 : Option ℕ

-- The parsers of the crate `http`; a header's name has no line feed in it.
pub record Grammar : Type 0 where
  pub is_path_and_query : Bytes → Bool
  pub parse_authority : Bytes → Option Authority
  pub is_header_name : Bytes → Bool
  pub is_header_name-lacks : (name : Bytes) → is_header_name name ≡ true → lacks 10 name ≡ true

abbrev pub one_of : List Bytes → Bytes → Bool
one_of names name = any (λ n. str_eq n name) names

abbrev pub hop : Bytes → Bool
hop = one_of (
    codes "connection"
    ∷ codes "keep-alive"
    ∷ codes "proxy-authenticate"
    ∷ codes "proxy-authorization"
    ∷ codes "proxy-connection"
    ∷ codes "te"
    ∷ codes "trailer"
    ∷ codes "transfer-encoding"
    ∷ codes "upgrade"
    ∷ [])

abbrev pub methods : List Bytes
methods =
    codes "GET"
    ∷ codes "HEAD"
    ∷ codes "POST"
    ∷ codes "PUT"
    ∷ codes "PATCH"
    ∷ codes "DELETE"
    ∷ codes "OPTIONS"
    ∷ []

abbrev pub bodiless : List Bytes
bodiless = codes "GET" ∷ codes "HEAD" ∷ []

abbrev pub ends_with : ℕ → Bytes → Bool
ends_with d [] = false
ends_with d (c ∷ []) = c == d
ends_with d (c ∷ e ∷ cs) = ends_with d (e ∷ cs)

-- A field's value may hold a tab, and no other control character.
abbrev pub bad_value_byte : ℕ → Bool
bad_value_byte b = ltb b 32 && not (b == 9) || leb 127 b

-- A number in decimal digits, in front of `acc`; 20 of them are enough below 2^64.
abbrev pub decimal_digits : ℕ → ℕ → Bytes → Bytes
decimal_digits zero n acc = acc
decimal_digits (suc fuel) n acc = elim (ltb n 10) [
  | true ↦ (48 + n) ∷ acc
  | false ↦ decimal_digits fuel (n / 10) ((48 + n % 10) ∷ acc)
]

abbrev pub decimal : ℕ → Bytes
decimal n = decimal_digits 20 n []

abbrev pub field : Bytes → Bytes → Bytes
field name value = name ++ (codes ": " ++ (value ++ crlf))

-- The lines in front of the request's own fields.
abbrev pub opening : Request → ℕ → Bytes
opening request body_len =
    request.method
    ++ (codes " "
        ++ (request.path
            ++ (codes " HTTP/1.1"
                ++ (crlf
                    ++ (field (codes "Host") request.authority
                        ++ (field (codes "Connection") (codes "close")
                            ++ (field (codes "Accept-Encoding") (codes "identity")
                                ++ field (codes "Content-Length") (decimal body_len))))))))

abbrev pub set_by_encode : List Bytes
set_by_encode =
    codes "host" ∷ codes "content-length" ∷ codes "expect" ∷ codes "accept-encoding" ∷ []

module _ (grammar : Grammar) where
  abbrev pub bad_path : Bytes → Bool
  bad_path path =
      not (is_some (strip_prefix (codes "/") path))
      || is_some (strip_prefix (codes "//") path)
      || any (λ b. leb b 32 || leb 127 b || b == 35 || b == 92) path
      || not (grammar.is_path_and_query path)

  abbrev pub bad_authority : Bytes → Authority → Bool
  bad_authority text authority =
      is_empty authority.host
      || any (λ b. b == 64) text
      || not (all (λ b. ltb b 128) text)
      || any (λ b. leb b 32 || b == 127) text
      || ends_with 58 text
      || authority.has_port && not (is_some authority.port_u16)

  abbrev pub bad_header : Bytes → Bytes → Bool
  bad_header name value =
      hop (lowercase name)
      || one_of set_by_encode (lowercase name)
      || not (grammar.is_header_name name)
      || any bad_value_byte value

  abbrev pub add_headers : List (Bytes × Bytes) → Bytes → Result HttpError Bytes
  add_headers [] out = ok out
  add_headers ((name, value) ∷ headers) out = do
    bail_if (bad_header name value) invalid_header
    bail_if (ltb max_head (length (out ++ field name value))) request_limit
    add_headers headers (out ++ field name value)

  abbrev pub checked_authority : Bytes → Result HttpError Authority
  checked_authority text = do
    authority ← ok_or (grammar.parse_authority text) invalid_authority
    bail_if (bad_authority text authority) invalid_authority
    ok authority

  abbrev pub request_checks : Request → Bytes → List (Bool × HttpError)
  request_checks request body =
      (not (within 1 300000 request.timeout_ms), invalid_timeout)
      ∷ (not (one_of methods request.method), invalid_method)
      ∷ (ltb max_request (length body), request_limit)
      ∷ (one_of bodiless request.method && not (is_empty body), invalid_body)
      ∷ (bad_path request.path, invalid_path)
      ∷ []

  unfoldable pub encode : Request → Bytes → Result HttpError Bytes
  encode request body = do
    checks (request_checks request body)
    authority ← checked_authority request.authority
    bail_if (ltb max_fields (length request.headers + 4)) request_limit
    out ← add_headers request.headers (opening request (length body))
    bail_if (ltb max_head (length (out ++ crlf))) request_limit
    ok ((out ++ crlf) ++ body)
