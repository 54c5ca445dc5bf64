-- ===== src/Headers/Upstream.antt =====
-- src/http_utils.rs: what a request is made into for its upstream: its headers, its URL and its
-- method. The parsers of the crate `http` and the setters of the crate `url` are parameters.
use locho.Base.{
  ℕ, Bool, not, ◌||◌, ◌++◌, List, [], ◌∷◌, Option, none, some, Bytes, codes, any, str_eq, ◌==◌,
  ==_iff, is_some, strip_prefix, if◌then◌else◌, Result, ok, ◌>>=◌, ◌>>◌, bail_if, bail_if-then,
  ok-injective, ◌≡◌, refl, sym, ap, subst, ◌⊎◌, ◌∙◌, Bool-cases, Option-cases, inl, inr,
}

pub data JoinError : Type 0 where
  invalid_request_path : JoinError

-- `str::split_once` at a one-byte separator
abbrev pub split_once : ℕ → Bytes → Option (Bytes × Bytes)
split_once d [] = none
split_once d (c ∷ cs) =
    let rest = split_once d cs in
    if c == d
    then some ([], cs)
    else elim rest [ none ↦ none | some (before, after) ↦ some (c ∷ before, after) ]

abbrev pub nonempty : Bytes → Option Bytes
nonempty [] = none
nonempty (c ∷ cs) = some (c ∷ cs)

abbrev pub path_and_query_of : Bytes → Option (Bytes × Bytes) → Bytes × Option Bytes
path_and_query_of text none = (text, none)
path_and_query_of text (some (path, query)) = (path, nonempty query)

-- The path and the query that the upstream's URL is given.
unfoldable pub upstream_target : Bytes → Result JoinError (Bytes × Option Bytes)
upstream_target path_and_query = do
  bail_if
      (not (is_some (strip_prefix (codes "/") path_and_query)) || any (λ c. c == 92) path_and_query)
      invalid_request_path
  ok (path_and_query_of path_and_query (split_once 63 path_and_query))

-- `set_path` and `set_query` are those of `Url`.
module _ {U : Type 0} (set_path : Bytes → U → U) (set_query : Option Bytes → U → U) where
  unfoldable pub join_upstream_url : U → Bytes → Result JoinError U
  unfolding upstream_target
  join_upstream_url upstream path_and_query = do
    (path, query) ← upstream_target path_and_query
    ok (set_query query (set_path path upstream))

-- `name.parse::<HeaderName>()` and `HeaderValue::from_str`
module _ (parse_name : Bytes → Option Bytes) (from_str : Bytes → Option Bytes) where
  unfoldable pub pairs_to_headers : List (Bytes × Bytes) → List (Bytes × Bytes)
  pairs_to_headers [] = []
  pairs_to_headers ((name, value) ∷ pairs) =
      let rest = pairs_to_headers pairs in
      elim (parse_name name) [
        | none ↦ rest
        | some n ↦ elim (from_str value) [ none ↦ rest | some v ↦ (n, v) ∷ rest ]
      ]

unfoldable pub is_supported_method : Bytes → Bool
is_supported_method method =
    any (λ m. str_eq m method)
      (codes "GET"
        ∷ codes "POST"
        ∷ codes "PUT"
        ∷ codes "PATCH"
        ∷ codes "DELETE"
        ∷ codes "HEAD"
        ∷ codes "OPTIONS"
        ∷ [])

-- The path and the query put together again.
abbrev pub rejoined : Bytes → Option (Bytes × Bytes) → Bytes
rejoined text none = text
rejoined text (some (before, after)) = before ++ 63 ∷ after

split_once-rejoined : (s : Bytes) → rejoined s (split_once 63 s) ≡ s
split_once-rejoined [] = refl
split_once-rejoined (c ∷ cs) = elim (Bool-cases (c == 63)) [
  | inl e ↦ rw e (ap (◌∷ cs) (sym ((==_iff c 63).0 e)))
  | inr e ↦ elim (Option-cases (split_once 63 cs)) [
    | inl whole ↦ rw (e, whole) refl
    | inr ((before, after), parts) ↦
        rw (e, parts) (ap (◌∷◌ c) (ap (rejoined cs) (sym parts) ∙ split_once-rejoined cs))
  ]
]

abbrev pub Rejoins : Bytes → Bytes × Option Bytes → Type 0
Rejoins text (path, none) = (text ≡ path) ⊎ (text ≡ path ++ 63 ∷ [])
Rejoins text (path, some query) = text ≡ path ++ 63 ∷ query

path_and_query_of-Rejoins :
    (text : Bytes) (parts : Option (Bytes × Bytes))
    → rejoined text parts ≡ text
    → Rejoins text (path_and_query_of text parts)
path_and_query_of-Rejoins text none h = inl refl
path_and_query_of-Rejoins text (some (path, [])) h = inr (sym h)
path_and_query_of-Rejoins text (some (path, c ∷ cs)) h = sym h

-- What the upstream's URL is given is the request's own path and query, unchanged; only a question
-- mark with nothing behind it is dropped.
pub upstream_target-Rejoins :
    (text : Bytes) {target : Bytes × Option Bytes}
    → upstream_target text ≡ ok target
    → Rejoins text target
unfolding upstream_target
upstream_target-Rejoins text h =
    let (fine, h1) =
      bail_if-then (not (is_some (strip_prefix (codes "/") text)) || any (λ c. c == 92) text)
        invalid_request_path h in
    subst (Rejoins text) (ok-injective h1)
      (path_and_query_of-Rejoins text (split_once 63 text) (split_once-rejoined text))
