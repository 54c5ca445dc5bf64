-- ===== src/Host/Startup.antt =====
-- The host's start, in src/host.rs: the address that it binds, and the secrets of its services.
use locho.Base.{
  Bool, List, [], ◌∷◌, Option, none, some, Bytes, codes, str_eq, str_eq_iff, is_some, contains,
  bytes_eq, ◌==◌, if◌then◌else◌, Result, ok, err, bail_if, ◌>>=◌, ◌>>◌, ◌≡◌, refl, ap, ◌∙◌, arith,
}
use locho.Net.{IpAddr, v4, v6, SocketAddr}
use locho.Host.{lookup}

pub data BindError : Type 0 where
  not_ipv4 unspecified_address zero_bind_port : BindError

-- `Ipv4Addr::is_unspecified`, of the address's text.
abbrev is_unspecified : Bytes → Bool
is_unspecified ip = str_eq ip (codes "0.0.0.0")

abbrev bind_ip : IpAddr → Result BindError Bytes
bind_ip (v4 ip) = ok ip
bind_ip (v6 ip) = err not_ipv4

unfoldable pub validate_bind_address : SocketAddr → Result BindError SocketAddr
validate_bind_address address = do
  ip ← bind_ip address.ip
  bail_if (is_unspecified ip) unspecified_address
  bail_if (address.port == 0) zero_bind_port
  ok address

-- `secrets.retain(|name, _| active_names.contains(name))`
retain : List Bytes → List (Bytes × Bytes) → List (Bytes × Bytes)
retain names [] = []
retain names ((name, secret) ∷ secrets) =
    let rest = retain names secrets in if contains names name then (name, secret) ∷ rest else rest

-- `entry(name).or_insert_with(generate_secret)`
or_insert : Bytes → Bytes → List (Bytes × Bytes) → List (Bytes × Bytes)
or_insert name fresh secrets =
    if is_some (lookup name secrets) then secrets else (name, fresh) ∷ secrets

-- The loop over the services; `generate name` is what is drawn for that one.
fill_in : (Bytes → Bytes) → List Bytes → List (Bytes × Bytes) → List (Bytes × Bytes)
unfolding or_insert
fill_in generate [] secrets = secrets
fill_in generate (name ∷ names) secrets =
    fill_in generate names (or_insert name (generate name) secrets)

unfoldable pub active_secrets :
    (Bytes → Bytes) → List Bytes → List (Bytes × Bytes) → List (Bytes × Bytes)
unfolding retain fill_in
active_secrets generate names secrets = fill_in generate names (retain names secrets)

abbrev pub or_else : Option Bytes → Bytes → Bytes
or_else none fresh = fresh
or_else (some old) fresh = old

lookup-retain :
    (names : List Bytes) (secrets : List (Bytes × Bytes)) (name : Bytes)
    → lookup name (retain names secrets)
      ≡ (if contains names name then lookup name secrets else none)
unfolding retain
lookup-retain names [] name = ground arith
lookup-retain names ((n, secret) ∷ secrets) name =
    ground (arith, lookup-retain names secrets name, str_eq_iff n name)

-- The name's own entry, or the fresh one that is put in.
lookup-or_insert :
    (name fresh other : Bytes) (secrets : List (Bytes × Bytes))
    → lookup other (or_insert name fresh secrets) ≡ (
        if str_eq name other
        then some (or_else (lookup other secrets) fresh)
        else lookup other secrets)
unfolding or_insert
lookup-or_insert name fresh other secrets = ground (arith, str_eq_iff name other)

-- What the loop makes of an entry.
filled : (Bytes → Bytes) → List Bytes → Bytes → Option Bytes → Option Bytes
filled generate [] name entry = entry
filled generate (n ∷ names) name entry =
    filled generate names name (if str_eq n name then some (or_else entry (generate n)) else entry)

lookup-fill_in :
    (generate : Bytes → Bytes) (names : List Bytes) (secrets : List (Bytes × Bytes)) (name : Bytes)
    → lookup name (fill_in generate names secrets)
      ≡ filled generate names name (lookup name secrets)
unfolding fill_in filled
lookup-fill_in generate [] secrets name = refl
lookup-fill_in generate (n ∷ names) secrets name =
    lookup-fill_in generate names (or_insert n (generate n) secrets) name
    ∙ ap (filled generate names name) (lookup-or_insert n (generate n) name secrets)

filled-some :
    (generate : Bytes → Bytes) (names : List Bytes) (name secret : Bytes)
    → filled generate names name (some secret) ≡ some secret
unfolding filled
filled-some generate [] name secret = refl
filled-some generate (n ∷ names) name secret =
    ground (arith, filled-some generate names name secret)

filled-none :
    (generate : Bytes → Bytes) (names : List Bytes) (name : Bytes)
    → filled generate names name none ≡ (if contains names name then some (generate name) else none)
unfolding filled
filled-none generate [] name = refl
filled-none generate (n ∷ names) name = ground (
  arith,
  filled-none generate names name,
  filled-some generate names name (generate n),
  str_eq_iff n name,
  str_eq_iff name n,
)

-- After the start, a name has a secret exactly if it is that of a configured service: the one that
-- was stored, or a fresh one where there was none.
pub active_secrets_lem :
    (generate : Bytes → Bytes) (names : List Bytes) (secrets : List (Bytes × Bytes)) (name : Bytes)
    → lookup name (active_secrets generate names secrets)
      ≡ (if contains names name then some (or_else (lookup name secrets) (generate name)) else none)
unfolding active_secrets
active_secrets_lem generate names secrets name =
    lookup-fill_in generate names (retain names secrets) name
    ∙ ap (filled generate names name) (lookup-retain names secrets name)
    ∙ either (lookup name secrets)
  where
    either :
        (o : Option Bytes)
        → filled generate names name (if contains names name then o else none)
          ≡ (if contains names name then some (or_else o (generate name)) else none)
    either none = ground (arith, filled-none generate names name)
    either (some secret) =
        ground (arith, filled-none generate names name, filled-some generate names name secret)
