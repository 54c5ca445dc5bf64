-- ===== src/Headers.antt =====
-- src/http_utils.rs: which headers are passed on between two connections. A header map is the list
-- of its names, in lower case, with their values; `to_str` stands for `HeaderValue::to_str` of the
-- crate `http`, the text of a value that is visible ASCII.
pub mod Upstream
pub mod Names
pub mod Passed
pub mod Request
pub mod Kept
pub mod Built
use locho.Base.{
  lowercase, ℕ, Bool, true, false, not, ◌&&◌, ◌||◌, ◌++◌, List, [], ◌∷◌, Option, none, some, Bytes,
  codes, str_eq, ◌==◌, any, split, if◌then◌else◌, ◌≡◌, ap, sym, ◌∙◌, ◌↔◌, arith, Bool-cases,
  Option-cases, inl, inr, ◌⊎◌,
}

abbrev hop_by_hop : List Bytes
hop_by_hop =
    codes "connection"
    ∷ codes "keep-alive"
    ∷ codes "proxy-authenticate"
    ∷ codes "proxy-authorization"
    ∷ codes "te"
    ∷ codes "trailer"
    ∷ codes "transfer-encoding"
    ∷ codes "upgrade"
    ∷ codes "host"
    ∷ codes "content-length"
    ∷ []

abbrev pub includes : Bytes → List Bytes → Bool
includes name = any (λ n. str_eq n name)

unfoldable pub is_hop_by_hop_header : Bytes → Bool
is_hop_by_hop_header name = includes name hop_by_hop

-- In a visible ASCII text only spaces and tabs are white space.
abbrev is_blank : ℕ → Bool
is_blank c = c == 32 || c == 9

abbrev pub trim_start : Bytes → Bytes
trim_start [] = []
trim_start (c ∷ cs) = if is_blank c then trim_start cs else c ∷ cs

abbrev pub trim_end : Bytes → Bytes
trim_end [] = []
trim_end (c ∷ cs) = elim (trim_end cs) [
  | [] ↦ if is_blank c then [] else c ∷ []
  | d ∷ ds ↦ c ∷ d ∷ ds
]

abbrev pub trim : Bytes → Bytes
trim s = trim_end (trim_start s)

abbrev nominated_by : List Bytes → List Bytes
nominated_by [] = []
nominated_by (part ∷ parts) = lowercase (trim part) ∷ nominated_by parts

module _ (to_str : Bytes → Option Bytes) where
  -- `connection_headers`: the names that the values of the `Connection` headers list.
  pub connection_headers : List (Bytes × Bytes) → List Bytes
  connection_headers [] = []
  connection_headers ((name, value) ∷ headers) =
      let rest = connection_headers headers in
      if str_eq name (codes "connection")
      then elim (to_str value) [ none ↦ rest | some text ↦ nominated_by (split 44 text) ++ rest ]
      else rest

  kept : (Bytes → Bool) → List (Bytes × Bytes) → List (Bytes × Bytes)
  kept keep [] = []
  kept keep ((name, value) ∷ headers) =
      let rest = kept keep headers in
      if keep name
      then elim (to_str value) [ none ↦ rest | some text ↦ (name, text) ∷ rest ]
      else rest

  is_passed_on : List Bytes → Bytes → Bool
  is_passed_on nominated name = not (is_hop_by_hop_header name) && not (includes name nominated)

  pub headers_to_pairs : List (Bytes × Bytes) → List (Bytes × Bytes)
  unfolding is_passed_on kept
  headers_to_pairs headers = kept (is_passed_on (connection_headers headers)) headers
