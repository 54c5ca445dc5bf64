-- ===== src/Headers/Built.antt =====
-- What the request for an upstream is made of.
use locho.Base.{
  ℕ, false, not, List, Option, none, some, Bytes, codes, ok, err, ◌≡◌, ◌↔◌, ◌⊎◌, inl, inr, refl,
  sym, ap, ◌∙◌, Option-cases, Result-cases, >>=-eq-ok, arith, subst, ok-injective,
}
use locho.Headers.Upstream.{join_upstream_url, upstream_target, upstream_target-Rejoins, Rejoins}
use locho.Headers.Names.{In, IsHopByHop}
use locho.Headers.Request.{
  HttpCrates, UpstreamRequest, BuildError, is_zero_len, length_header, kept_pairs, built,
  upstream_request,
}
use locho.Headers.Kept.{IsParsed, kept_pairs_iff}

module _ {Url : Type 0} (http : HttpCrates Url) where
  abbrev pub IsLength : Bytes × Bytes → Option ℕ → Type 0
  IsLength p body_len =
      (len : ℕ) × (body_len ≡ some len) × (p ≡ (codes "content-length", http.decimal len))

  -- The URL of the upstream with the path and the query of the request, its method, its headers that
  -- can be parsed but for those of a single connection, and the length of its body, if it has one.
  pub record IsBuilt (upstream : Url) (path_and_query method : Bytes)
      (headers : List (Bytes × Bytes)) (body_len : Option ℕ) (sent : UpstreamRequest Url)
      : Type 0 where
    pub target : Bytes × Option Bytes
    pub rejoins : Rejoins path_and_query target
    pub url : sent.url ≡ http.set_query target.1 (http.set_path target.0 upstream)
    pub same_method : http.parse_method method ≡ some sent.method
    pub headers_iff :
        (p : Bytes × Bytes)
        → In p sent.headers ↔ (IsLength p body_len ⊎ (IsParsed http p headers × (¬ IsHopByHop p.0)))
    pub body_iff : (sent.has_body ≡ false) ↔ (body_len ≡ some 0)

  length_header_iff :
      (p : Bytes × Bytes) (body_len : Option ℕ) (headers : List (Bytes × Bytes))
      → In p (length_header http body_len headers) ↔ (IsLength p body_len ⊎ In p headers)
  length_header_iff p none headers =
      (λ h. inr h, λ h. elim h [ inl l ↦ absurd (no_length l) | inr r ↦ r ])
    where
      no_length : IsLength p none → ⊥
      no_length (len, h, e) = ground arith
  length_header_iff p (some len) headers = (
    λ h. elim h [ inl e ↦ inl (len, refl, e) | inr r ↦ inr r ],
    λ h. elim h [ inl l ↦ inl (same_length l) | inr r ↦ inr r ],
  )
    where
      same_length : IsLength p (some len) → p ≡ (codes "content-length", http.decimal len)
      same_length (n, h, e) =
          e ∙ ap (λ (k : ℕ). (codes "content-length", http.decimal k)) (ground arith)

  no_body_iff : (body_len : Option ℕ) → (not (is_zero_len body_len) ≡ false) ↔ (body_len ≡ some 0)
  no_body_iff none = (λ h. ground arith, λ h. ground arith)
  no_body_iff (some len) = (λ h. ap (λ (n : ℕ). some n) (ground arith), λ h. ground arith)

  join_upstream_url-eq-ok :
      (upstream : Url) (text : Bytes) {url : Url}
      → join_upstream_url http.set_path http.set_query upstream text ≡ ok url
      → (target : Bytes × Option Bytes) × Rejoins text target
        × (url ≡ http.set_query target.1 (http.set_path target.0 upstream))
  unfolding join_upstream_url
  join_upstream_url-eq-ok upstream text h =
      let (target, t, h1) = >>=-eq-ok (upstream_target text) _ h in
      (target, upstream_target-Rejoins text t, sym (ok-injective h1))

  pub upstream_request-IsBuilt :
      (upstream : Url) (text method : Bytes) (headers : List (Bytes × Bytes)) (body_len : Option ℕ)
      {sent : UpstreamRequest Url}
      → upstream_request http upstream text method headers body_len ≡ ok sent
      → IsBuilt upstream text method headers body_len sent
  unfolding upstream_request
  upstream_request-IsBuilt upstream text method headers body_len {sent} h =
      elim (Result-cases (join_upstream_url http.set_path http.set_query upstream text)) [
        | inr (e, bad) ↦ absurd (no_error (rw (bad, upstream_request) at h))
        | inl (url, joined) ↦ elim (Option-cases (http.parse_method method)) [
          | inl bad ↦ absurd (no_error (rw (joined, bad, upstream_request) at h))
          | inr (m, fine) ↦
              subst (IsBuilt upstream text method headers body_len)
                (ok-injective (rw (joined, fine, upstream_request) at h))
                (of_parts url m joined fine)
        ]
      ]
    where
      no_error : {e : BuildError} → err e ≡ ok sent → ⊥
      no_error h = ground arith

      of_parts :
          (url : Url) (m : Bytes)
          → join_upstream_url http.set_path http.set_query upstream text ≡ ok url
          → http.parse_method method ≡ some m
          → IsBuilt upstream text method headers body_len (built http text headers body_len m url)
      of_parts url m joined fine =
          let (target, rejoins, same) = join_upstream_url-eq-ok upstream text joined in
          record {
            target = target;
            rejoins = rejoins;
            url = same;
            same_method = fine;
            headers_iff = λ p.
                let (to, from) = length_header_iff p body_len (kept_pairs http headers) in
                let (kept_to, kept_from) = kept_pairs_iff http p headers in
                (
                  λ h. elim (to h) [ inl l ↦ inl l | inr r ↦ inr (kept_to r) ],
                  λ h. from (elim h [ inl l ↦ inl l | inr r ↦ inr (kept_from r) ]),
                );
            body_iff = no_body_iff body_len;
          }
