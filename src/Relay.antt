-- ===== src/Relay.antt =====
-- crates/locho-core/src/relay.rs: the relays that a configuration allows, and src/relay.rs: the
-- options of its file. URLs, header values and the relays of n0 are parameters. A map is observed
-- by `lookup` only, so it is the list of its insertions, the newest first.
pub mod Used
use locho.Base.{
  ℕ, Bool, true, false, not, ◌||◌, ◌&&◌, ◌++◌, List, [], ◌∷◌, Option, none, some, Bytes, codes,
  str_eq, all, is_ascii_alphanumeric, ◌==◌, is_some, is_empty, contains, bytes_eq, if◌then◌else◌,
  Result, Checked, ok, err, ok_or, map_err, ◌>>=◌, ◌>>◌, bail_if,
}

pub record RelayOptions : Type 0 where
  pub url : Bytes
  pub auth_token : Option Bytes
  pub quic_address_discovery : Bool

pub record ConfiguredRelay : Type 0 where
  pub url : Bytes
  pub quic_address_discovery : Bool

pub data RelayError : Type 0 where
  invalid_url https_required host_required credentials_in_url base_url_required : RelayError
  duplicate_url invalid_token empty_configuration : RelayError

-- `url::Url`, by what is asked of it; two URLs are equal when their texts are.
pub record Url : Type 0 where
  pub text : Bytes
  pub scheme : Bytes
  pub has_host : Bool
  pub username : Bytes
  pub password : Option Bytes
  pub path : Bytes
  pub query : Option Bytes
  pub fragment : Option Bytes

-- `iroh::RelayConfig`: its QUIC settings are there or not.
pub record RelayConfig : Type 0 where
  pub url : Bytes
  pub has_quic : Bool
  pub auth_token : Option Bytes

abbrev pub RelayMap : Type 0
RelayMap = List (Bytes × RelayConfig)

pub record RelaySettings : Type 0 where
  pub mode : RelayMap
  pub relays : List ConfiguredRelay
  pub include_n0_relays : Bool

-- The set, the map and the list that the loop of `RelaySettings::new` fills.
pub record Filled : Type 0 where
  pub urls : List Bytes
  pub custom_map : RelayMap
  pub relays : List ConfiguredRelay

abbrev pub nothing_filled : Filled
nothing_filled = record { urls = []; custom_map = []; relays = [] }

pub record Libraries : Type 0 where
  pub parse_url : Bytes → Option Url
  pub is_header_value : Bytes → Bool
  pub n0_relays : RelayMap

abbrev pub config_of : Url → RelayOptions → RelayConfig
config_of url option = record {
  url = url.text;
  has_quic = option.quic_address_discovery;
  auth_token = option.auth_token;
}

abbrev pub configured : Url → RelayOptions → ConfiguredRelay
configured url option = record {
  url = url.text;
  quic_address_discovery = option.quic_address_discovery;
}

module _ (libraries : Libraries) where
  unfoldable pub parse_relay_url : Bytes → Result RelayError Url
  parse_relay_url value = do
    url ← ok_or (libraries.parse_url value) invalid_url
    bail_if (not (str_eq url.scheme (codes "https"))) https_required
    bail_if (not url.has_host) host_required
    bail_if (not (is_empty url.username) || is_some url.password) credentials_in_url
    bail_if (not (str_eq url.path (codes "/")) || is_some url.query || is_some url.fragment)
        base_url_required
    ok url

  unfoldable pub validate_token : Bytes → Checked RelayError
  validate_token token =
      bail_if (is_empty token || not (libraries.is_header_value (codes "Bearer " ++ token)))
        invalid_token

  abbrev pub check_token : Option Bytes → Checked RelayError
  check_token none = ok tt
  check_token (some token) = validate_token token

  abbrev pub add_relay : RelayOptions → Filled → Result RelayError Filled
  add_relay option filled = do
    url ← parse_relay_url option.url
    bail_if (contains filled.urls url.text) duplicate_url
    check_token option.auth_token
    ok (record {
      urls = url.text ∷ filled.urls;
      custom_map = (url.text, config_of url option) ∷ filled.custom_map;
      relays = filled.relays ++ configured url option ∷ [];
    })

  abbrev pub add_relays : List RelayOptions → Filled → Result RelayError Filled
  add_relays [] filled = ok filled
  add_relays (option ∷ options) filled = add_relay option filled >>= add_relays options

  -- `relay_map.extend(&custom_map)`: the configured relays are inserted last.
  abbrev pub extended : Bool → RelayMap → RelayMap
  extended true custom_map = custom_map ++ libraries.n0_relays
  extended false custom_map = custom_map ++ []

  -- `RelaySettings::new`
  unfoldable pub new : Bool → List RelayOptions → Result RelayError RelaySettings
  unfolding parse_relay_url validate_token
  new include_n0_relays options = do
    filled ← add_relays options nothing_filled
    bail_if (not include_n0_relays && is_empty filled.custom_map) empty_configuration
    ok (record {
      mode = extended include_n0_relays filled.custom_map;
      relays = filled.relays;
      include_n0_relays = include_n0_relays;
    })

-- The file of src/relay.rs, once it is deserialized.
pub record RelayEntry : Type 0 where
  pub url : Bytes
  pub token_env : Option Bytes
  pub quic_address_discovery : Bool

pub record RelayFile : Type 0 where
  pub include_n0_relays : Bool
  pub relays : List RelayEntry

pub data FileError : Type 0 where
  token_env_name token_not_set token_not_valid : FileError
  settings : RelayError → FileError

abbrev pub is_variable_byte : ℕ → Bool
is_variable_byte byte = is_ascii_alphanumeric byte || byte == b'_'

abbrev pub of_settings : Result RelayError RelaySettings → Result FileError RelaySettings
of_settings (ok s) = ok s
of_settings (err e) = err (settings e)

-- `var` is the environment.
module _ (libraries : Libraries) (var : Bytes → Option Bytes) where
  unfoldable pub read_token : Bytes → Result FileError Bytes
  read_token name = do
    bail_if (is_empty name || not (all is_variable_byte name)) token_env_name
    token ← ok_or (var name) token_not_set
    map_err (validate_token libraries token) token_not_valid
    ok token

  abbrev pub entry_token : Option Bytes → Result FileError (Option Bytes)
  entry_token none = ok none
  entry_token (some name) = do token ← read_token name; ok (some token)

  abbrev pub options_of : List RelayEntry → Result FileError (List RelayOptions)
  options_of [] = ok []
  options_of (entry ∷ entries) = do
    token ← entry_token entry.token_env
    rest ← options_of entries
    ok (
        record {
          url = entry.url;
          auth_token = token;
          quic_address_discovery = entry.quic_address_discovery;
        }
        ∷ rest)

  unfoldable pub parse : RelayFile → Result FileError RelaySettings
  unfolding read_token new
  parse file = do
    options ← options_of file.relays
    of_settings (new libraries file.include_n0_relays options)
