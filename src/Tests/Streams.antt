-- ===== src/Tests/Streams.antt =====
-- Streams at the host, header lists, and DNS lookups.
use locho.Base.{
  ℕ, ◌+◌, ◌*◌, ◌<◌, length, true, false, ◌||◌, List, [], ◌∷◌, none, some, Bytes, codes, ◌≡◌, ◌↔◌,
  ◌⊎◌, inl, refl, sym, subst, arith, Result, ok, err,
}
use locho.Service.{http, tcp}
use locho.Net.{v4}
use locho.Wire.{TcpRequestHead, LochoRequestHead, StreamRequestHead, protocol_version}
use locho.Config.{ServiceConfig, StreamEndpoint, tcp_at, stream_endpoint}
use locho.Auth.{secret_proof}
use locho.Host.{
  HostServices, connect, forward, connected, refused, completed, stopped, body_limit, head,
  handle_tcp_stream, handle_http_stream, handle_stream,
}
use locho.Host.Tcp.{Occurs, IsAuthorized, handle_tcp_stream-connects, handle_tcp_stream_authorized}
use locho.Host.Answers.{IsAnswered}
use locho.Host.Secrets.{IsSecretOf, handle_stream-Reaches}
use locho.Host.Http.{IsAdmitted, handle_http_stream_admitted, handle_stream-IsAnswered}
use locho.Headers.{headers_to_pairs, is_hop_by_hop_header}
use locho.Headers.Names.{In, IsHopByHop}
use locho.Headers.Passed.{IsNominated, headers_to_pairs_iff}
use locho.Headers.Upstream.{nonempty, upstream_target, join_upstream_url, pairs_to_headers}
use locho.Headers.Request.{HttpCrates, UpstreamRequest, upstream_request, kept_pairs}
use locho.Dns.{first_records, has_records, first_records_lem}

-- A digest that leaves a text as it is, and URLs that are numbers.
abbrev digest : Bytes → Bytes
digest text = text

abbrev ssh_service : ServiceConfig ℕ
ssh_service = record {
  name = codes "ssh";
  service_type = tcp;
  upstream = none;
  upstream_timeout_secs = none;
  ca_cert = none;
  endpoint = some (record { ip = v4 (codes "127.0.0.1"); port = 22 });
  unix_socket = none;
  tcp_idle_timeout_secs = none;
}

abbrev web_service : ServiceConfig ℕ
web_service = record {
  name = codes "web";
  service_type = http;
  upstream = some 5;
  upstream_timeout_secs = none;
  ca_cert = none;
  endpoint = none;
  unix_socket = none;
  tcp_idle_timeout_secs = none;
}

abbrev host_with : ℕ → HostServices ℕ
host_with permits = record {
  services = ssh_service ∷ web_service ∷ [];
  secrets = (codes "ssh", codes "s3") ∷ (codes "web", codes "w1") ∷ [];
  tcp_available = permits;
}

abbrev ssh_endpoint : StreamEndpoint
ssh_endpoint = tcp_at (record { ip = v4 (codes "127.0.0.1"); port = 22 })

abbrev ssh_request : TcpRequestHead
ssh_request = record {
  version = protocol_version;
  service = codes "ssh";
  secret_proof = codes "locho-v1:s3";
}

abbrev web_request : LochoRequestHead
web_request = record {
  version = protocol_version;
  service = codes "web";
  secret_proof = codes "locho-v1:w1";
  method = codes "GET";
  path_and_query = codes "/";
  headers =
      (codes "accept", codes "text/html")
      ∷ (codes "upgrade", codes "h2c")
      ∷ (codes "", codes "no name")
      ∷ [];
  body_len = some 0;
}

-- Crates for such URLs: a path adds its length, a query its double.
abbrev crates : HttpCrates ℕ
crates = record {
  set_path = λ path url. url + length path;
  set_query = λ query url. elim query [ none ↦ url | some q ↦ url + 2 * length q ];
  parse_name = λ name. nonempty name;
  parse_value = λ value. some value;
  parse_method = λ method. nonempty method;
  decimal = λ n. (48 + n) ∷ [];
}

abbrev web_sent : UpstreamRequest ℕ
web_sent = record {
  url = 6;
  method = codes "GET";
  headers = (codes "content-length", codes "0") ∷ (codes "accept", codes "text/html") ∷ [];
  has_body = false;
}

web_built :
    upstream_request crates 5 web_request.path_and_query web_request.method web_request.headers
      web_request.body_len
    ≡ ok web_sent
unfolding upstream_request join_upstream_url upstream_target kept_pairs pairs_to_headers
    is_hop_by_hop_header
web_built = refl

ssh_authorized : (permits : ℕ) → IsAuthorized digest (host_with permits) ssh_request ssh_endpoint
unfolding stream_endpoint secret_proof
ssh_authorized permits = record {
  version = refl;
  service = ssh_service;
  found = refl;
  kind = refl;
  target = refl;
  secret = codes "s3";
  stored = refl;
  proof = refl;
}

web-IsAdmitted : IsAdmitted digest (host_with 1) web_request web_service
unfolding secret_proof
web-IsAdmitted = record {
  version = refl;
  found = refl;
  kind = refl;
  secret = codes "w1";
  stored = refl;
  proof = refl;
}

ssh_connects :
    Occurs
      (connect ssh_endpoint)
      (handle_tcp_stream digest (host_with 1) ssh_request refused true).0
unfolding ssh_authorized
ssh_connects =
    subst (λ run. Occurs (connect ssh_endpoint) run.0)
      (sym (
        handle_tcp_stream_authorized digest (host_with 1) ssh_request refused true ssh_endpoint
          (ssh_authorized 1) (omega arith) tt))
      (inl refl)

handle_tcp_stream-connects_example :
    IsAuthorized digest (host_with 1) ssh_request ssh_endpoint × (0 < 1)
handle_tcp_stream-connects_example =
    handle_tcp_stream-connects digest (host_with 1) ssh_request refused true ssh_endpoint
      ssh_connects

web_forwards :
    Occurs
      (forward web_sent)
      (handle_http_stream digest crates (host_with 1) web_request (completed 200)).0
web_forwards =
    subst (λ run. Occurs (forward web_sent) run.0)
      (sym (
        handle_http_stream_admitted digest crates (host_with 1) web_request web_service
          (completed 200) 5 web_sent web-IsAdmitted refl web_built))
      (inl refl)

handle_stream-IsAnswered_example : IsAnswered digest (host_with 1) (
    handle_stream digest crates
      (host_with 1)
      (head (StreamRequestHead.http web_request))
      connected
      true
      (stopped none body_limit))
handle_stream-IsAnswered_example =
    handle_stream-IsAnswered digest crates (host_with 1) (head (StreamRequestHead.http web_request))
      connected true (stopped none body_limit)

abbrev sample : List (Bytes × Bytes)
sample =
    (codes "connection", codes "close, X-Trace")
    ∷ (codes "x-trace", codes "1")
    ∷ (codes "accept", codes "text/html")
    ∷ []

headers_to_pairs_iff_example :
    In (codes "accept", codes "text/html") (headers_to_pairs (λ v. some v) sample) ↔ (
      (value : Bytes) × In (codes "accept", value) sample
      × (some value ≡ some (codes "text/html"))
      × (¬ IsHopByHop (codes "accept"))
      × (¬ IsNominated (λ v. some v) (codes "accept") sample))
headers_to_pairs_iff_example =
    headers_to_pairs_iff (λ v. some v) (codes "accept") (codes "text/html") sample

abbrev system_answer : Result ℕ (List ℕ)
system_answer = err 3

abbrev public_answer : Result ℕ (List ℕ)
public_answer = ok (8 ∷ [])

first_records_lem_example :
    ((first_records true system_answer public_answer ≡ system_answer)
      ⊎ (first_records true system_answer public_answer ≡ public_answer))
    × (has_records (first_records true system_answer public_answer)
        ≡ (has_records system_answer || has_records public_answer))
    × ((e : ℕ)
        → first_records true system_answer public_answer ≡ err e
        → (system_answer ≡ err e) × (f : ℕ) × (public_answer ≡ err f))
first_records_lem_example = first_records_lem true system_answer public_answer

handle_stream-Reaches_example : IsSecretOf digest crates (host_with 1) (codes "w1") (codes "web")
unfolding handle_stream
handle_stream-Reaches_example =
    handle_stream-Reaches digest crates (host_with 1) (codes "w1")
      (StreamRequestHead.http web_request) connected true (completed 200) (λ text same. same) refl
      (web_sent, web_forwards)
