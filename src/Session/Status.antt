-- ===== src/Session/Status.antt =====
-- The published status of a peer session: its states, errors and paths, and how they are updated.
use locho.Base.{
  ℕ, ◌+◌, ◌%◌, ◌^◌, Bool, true, false, ◌||◌, ◌++◌, List, [], ◌∷◌, Option, none, some, Bytes, codes,
  str_eq, strip_prefix, any, is_some, if◌then◌else◌,
}

pub data SessionState : Type 0 where
  starting connecting connected reconnecting failed closing closed : SessionState

pub data TransportPath : Type 0 where
  unknown direct relay mixed : TransportPath

pub data ErrorStage : Type 0 where
  connect acquire open_stream handshake shutdown : ErrorStage

pub data SessionError : Type 0 where
  closed cancelled protocol unsupported_service resource_limit driver_stopped : SessionError
  timeout transport : ErrorStage → SessionError
  service_rejected : ℕ → SessionError

pub record SessionStatus : Type 0 where
  pub revision : ℕ
  pub state : SessionState
  pub path : TransportPath
  pub path_description : Bytes
  pub last_error : Option SessionError
  pub terminal_error : Option SessionError

-- `SessionStatus::default`
abbrev pub initial_status : SessionStatus
initial_status = record {
  revision = 0;
  state = starting;
  path = unknown;
  path_description = codes "none";
  last_error = none;
  terminal_error = none;
}

-- `+= 1` on a `u64`
abbrev pub bump : ℕ → ℕ
bump n = (n + 1) % 2 ^ 64

abbrev pub is_connected : SessionState → Bool
is_connected connected = true
is_connected _ = false

-- `SessionDriver::update`
unfoldable pub update : SessionState → Option SessionError → SessionStatus → SessionStatus
update state error status = record {
  revision = bump status.revision;
  state = state;
  path = if is_connected state then status.path else unknown;
  path_description = if is_connected state then status.path_description else codes "none";
  last_error = if is_some error || is_connected state then error else status.last_error;
  terminal_error = status.terminal_error;
}

-- One path of a connection, as the transport reports it.
pub record PathInfo : Type 0 where
  pub remote_addr : Bytes
  pub is_ip : Bool
  pub is_relay : Bool
  pub is_selected : Bool

abbrev display_addr : Bytes → Bytes
display_addr address = elim (strip_prefix (codes "ip:") address) [
  | some rest ↦ rest
  | none ↦ elim (strip_prefix (codes "relay:") address) [ some rest ↦ rest | none ↦ address ]
]

abbrev addresses : (PathInfo → Bool) → List PathInfo → List Bytes
addresses test [] = []
addresses test (p ∷ ps) =
    if test p then display_addr p.remote_addr ∷ addresses test ps else addresses test ps

-- The last path that is selected.
abbrev selected : List PathInfo → Option Bytes
selected [] = none
selected (p ∷ ps) = elim (selected ps) [
  | some address ↦ some address
  | none ↦ if p.is_selected then some (display_addr p.remote_addr) else none
]

-- `addresses.join(", ")`
abbrev join_addresses : List Bytes → Bytes
join_addresses [] = []
join_addresses (p ∷ []) = p
join_addresses (p ∷ q ∷ ps) = p ++ codes ", " ++ join_addresses (q ∷ ps)

abbrev selected_or : Option Bytes → List Bytes → Bytes
selected_or (some address) listed = address
selected_or none listed = join_addresses listed

abbrev describe : List Bytes → List Bytes → Option Bytes → Bytes
describe [] [] chosen = codes "none"
describe (d ∷ ds) [] chosen = codes "direct(" ++ selected_or chosen (d ∷ ds) ++ codes ")"
describe [] (r ∷ rs) chosen = codes "relay(" ++ selected_or chosen (r ∷ rs) ++ codes ")"
describe (d ∷ ds) (r ∷ rs) chosen =
    codes "mixed(direct: "
    ++ join_addresses (d ∷ ds)
    ++ codes ", relay: "
    ++ join_addresses (r ∷ rs)
    ++ codes ")"

unfoldable pub format_transport_paths : List PathInfo → Bytes
format_transport_paths paths =
    describe (addresses (λ p. p.is_ip) paths) (addresses (λ p. p.is_relay) paths) (selected paths)

abbrev pub transport_path : Bool → Bool → TransportPath
transport_path true true = mixed
transport_path true false = direct
transport_path false true = relay
transport_path false false = unknown

-- `SessionDriver::path`
unfoldable pub path : List PathInfo → SessionStatus → SessionStatus
path paths status =
    if str_eq status.path_description (format_transport_paths paths)
    then status
    else record status {
      revision = bump status.revision;
      path = transport_path (any (λ p. p.is_ip) paths) (any (λ p. p.is_relay) paths);
      path_description = format_transport_paths paths;
    }
