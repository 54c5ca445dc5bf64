-- ===== src/WebHttp/Framed.antt =====
-- How the fields of a response frame its body, and which of them are passed on.
pub mod Told
pub mod Unambiguous
use locho.Base.{
  ℕ, zero, suc, ◌+◌, ◌-◌, ◌*◌, Bool, true, false, not, ◌||◌, ◌&&◌, ◌++◌, List, [], ◌∷◌, Option,
  none, some, Bytes, codes, lowercase, split, str_eq, any, all, is_ascii_digit, leb, ltb, ◌==◌,
  is_some, is_empty, if◌then◌else◌, Result, ok, err, ◌>>=◌, ◌>>◌, bail_if, checks,
}
use locho.Headers.{trim}
use locho.WebHttp.Reader.{HttpError, invalid_response, unsupported_framing, unsupported_encoding}
use locho.WebHttp.Body.{Framing, empty, until_end, sized, chunked}
use locho.WebHttp.Request.{one_of, hop}

abbrev pub Fields : Type 0
Fields = List (Bytes × Bytes)

-- What the loop over the fields has found.
pub record Found : Type 0 where
  pub length : Option ℕ
  pub is_chunked : Bool
  pub connection_fields : List Bytes

abbrev pub decimal_from : ℕ → Bytes → ℕ
decimal_from n [] = n
decimal_from n (c ∷ cs) = decimal_from (n * 10 + (c - 48)) cs

abbrev pub is_another : Option ℕ → ℕ → Bool
is_another none current = false
is_another (some previous) current = not (previous == current)

abbrev pub nonzero : Option ℕ → Bool
nonzero none = false
nonzero (some n) = not (n == 0)

module _ (usize_max : ℕ) (is_header_name : Bytes → Bool) where
  -- The value of a `Content-Length`.
  abbrev pub declared : Bytes → Result HttpError ℕ
  declared value =
      if is_empty value || not (all is_ascii_digit value)
      then err invalid_response
      else if ltb usize_max (decimal_from 0 value)
      then err invalid_response
      else ok (decimal_from 0 value)

  abbrev pub nominated : List Bytes → List Bytes → Result HttpError (List Bytes)
  nominated [] names = ok names
  nominated (part ∷ parts) names = do
    bail_if (not (is_header_name (lowercase (trim part)))) invalid_response
    nominated parts (names ++ lowercase (trim part) ∷ [])

  abbrev pub add_length : Bytes → Found → Result HttpError Found
  add_length value found = do
    current ← declared value
    bail_if (is_another found.length current) invalid_response
    ok (record found { length = some current })

  abbrev pub add_encoding : Bytes → Found → Result HttpError Found
  add_encoding value found = do
    bail_if (found.is_chunked || not (str_eq (lowercase value) (codes "chunked")))
        unsupported_framing
    ok (record found { is_chunked = true })

  abbrev pub add_connection : Bytes → Found → Result HttpError Found
  add_connection value found = do
    names ← nominated (split 44 value) found.connection_fields
    ok (record found { connection_fields = names })

  -- One round of the loop: whether the field is a length, a transfer encoding, a content encoding
  -- that is not `identity`, or a `connection` field.
  abbrev pub add_by : Bool → Bool → Bool → Bool → Bytes → Found → Result HttpError Found
  add_by true is_encoding is_coded is_connection value found = add_length value found
  add_by false true is_coded is_connection value found = add_encoding value found
  add_by false false true is_connection value found = err unsupported_encoding
  add_by false false false true value found = add_connection value found
  add_by false false false false value found = ok found

  abbrev pub is_coded : Bytes → Bytes → Bool
  is_coded name value =
      str_eq name (codes "content-encoding") && not (str_eq (lowercase value) (codes "identity"))

  abbrev pub add_field : Bytes × Bytes → Found → Result HttpError Found
  add_field (name, value) found =
      add_by (str_eq name (codes "content-length")) (str_eq name (codes "transfer-encoding"))
        (is_coded name value) (str_eq name (codes "connection")) value found

  abbrev pub add_fields : Fields → Found → Result HttpError Found
  add_fields [] found = ok found
  add_fields (entry ∷ fields) found = add_field entry found >>= add_fields fields

  abbrev pub nothing_found : Found
  nothing_found = record { length = none; is_chunked = false; connection_fields = [] }

  abbrev pub framing_checks : ℕ → Found → List (Bool × HttpError)
  framing_checks status found =
      (found.is_chunked && is_some found.length, invalid_response)
      ∷ (status == 205 && (found.is_chunked || nonzero found.length), invalid_response)
      ∷ (status == 204 && (found.is_chunked || is_some found.length), invalid_response)
      ∷ []

  abbrev pub chosen : Bool → Bool → Option ℕ → Framing
  chosen true is_chunked length = empty
  chosen false true length = chunked 0 false
  chosen false false (some n) = sized n
  chosen false false none = until_end

  abbrev pub is_bodiless : Bytes → ℕ → Bool
  is_bodiless method status =
      str_eq method (codes "HEAD") || status == 204 || status == 205 || status == 304

  abbrev pub retained : List Bytes → Fields → Fields
  retained connection_fields [] = []
  retained connection_fields ((name, value) ∷ fields) =
      let rest = retained connection_fields fields in
      if hop name || one_of connection_fields name || str_eq name (codes "content-length")
      then rest
      else (name, value) ∷ rest

  -- The framing of the body, and the fields of the answer.
  unfoldable pub framed : Bytes → ℕ → Fields → Result HttpError (Framing × Fields)
  framed method status fields = do
    found ← add_fields fields nothing_found
    checks (framing_checks status found)
    ok (
      chosen (is_bodiless method status) found.is_chunked found.length,
      retained found.connection_fields fields,
    )
