-- ===== src/Tests/Relays.antt =====
-- Relays that a configuration allows, and a relay under an idle deadline.
use locho.Base.{
  ℕ, true, false, List, [], ◌∷◌, Option, none, some, Bytes, codes, All, ◌≡◌, ◌≢◌, ◌⊎◌, refl, arith,
  ok,
}
use locho.Host.{lookup}
use locho.Relay.{
  RelayOptions, RelayConfig, RelaySettings, Libraries, new, parse_relay_url, validate_token,
}
use locho.Relay.Used.{IsUsed, ComesFrom, new_lem}
use locho.Wire.Idle.{Poll, relay_with_idle_policy, idle_timeout}
use locho.Wire.Idle.Gaps.{expected, relay_with_idle_policy_lem}

-- A library that takes every text for the host of a base URL.
abbrev libraries : Libraries
libraries = record {
  parse_url = λ text. some (record {
    text = text;
    scheme = codes "https";
    has_host = true;
    username = [];
    password = none;
    path = codes "/";
    query = none;
    fragment = none;
  });
  is_header_value = λ text. true;
  n0_relays = (codes "n0", record { url = codes "n0"; has_quic = true; auth_token = none }) ∷ [];
}

abbrev options : List RelayOptions
options =
    record { url = codes "a"; auth_token = some (codes "t"); quic_address_discovery = true }
    ∷ record { url = codes "b"; auth_token = none; quic_address_discovery = false }
    ∷ []

abbrev accepted : RelaySettings
accepted = record {
  mode =
      (codes "b", record { url = codes "b"; has_quic = false; auth_token = none })
      ∷ (codes "a", record { url = codes "a"; has_quic = true; auth_token = some (codes "t") })
      ∷ [];
  relays =
      record { url = codes "a"; quic_address_discovery = true }
      ∷ record { url = codes "b"; quic_address_discovery = false }
      ∷ [];
  include_n0_relays = false;
}

is_accepted : new libraries false options ≡ ok accepted
unfolding new parse_relay_url validate_token
is_accepted = refl

new_lem_example :
    All (IsUsed libraries accepted.mode) options
    × ((u : Bytes) (config : RelayConfig)
        → lookup u accepted.mode ≡ some config
        → ComesFrom libraries u config options
          ⊎ ((false ≡ true) × (lookup u libraries.n0_relays ≡ some config)))
new_lem_example = new_lem libraries false options is_accepted

-- Bytes at 3 and at 8, and a poll without any at 12.
abbrev polls : List Poll
polls =
    record { at = 3; before_timer = true; moved = 5; finished = none }
    ∷ record { at = 8; before_timer = true; moved = 1; finished = none }
    ∷ record { at = 12; before_timer = true; moved = 0; finished = none }
    ∷ []

abbrev ten : Option ℕ
ten = some 10

some-apart : ten ≢ some 0
some-apart h = ground (arith, h)

relay_with_idle_policy_lem_example :
    relay_with_idle_policy ten 0 polls ≡ some (expected ten 0 polls)
relay_with_idle_policy_lem_example =
    relay_with_idle_policy_lem ten 0 polls some-apart
      (omega arith, (omega arith, (omega arith, tt)))

at_the_gap : expected ten 0 polls ≡ idle_timeout 18
at_the_gap = refl
