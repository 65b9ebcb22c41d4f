-- ===== src/System.antt =====
-- The objects that `MosaicConnectorFactory::Create` makes and ties together, as one state. A
-- `shared_ptr` between two of them is a Boolean that says that it is not null.
use mosaic_core.Base.{String, Bool, List, Option}
use mosaic_core.Base.Int.{ℤ}
use mosaic_core.Base.Dict.{Dict}
use mosaic_core.Exec.{Exec}
use mosaic_core.Config.{WebRtcConfig}
use mosaic_core.Env.{Env, Call}
use mosaic_core.Auth.{Authenticator}
use mosaic_core.WebSocket.{Link}

-- The members of src/signaling/signaling_client.hpp; `has_connector` is `mosaic_connector_`,
-- `has_ws_client` is `ws_client_`.
pub record SignalingClient : Type 0 where
  pub is_connected : Bool
  pub has_ws_client : Bool
  pub latest_state : ℤ
  pub rtc_connection_id : String
  pub has_connector : Bool
  pub authenticator : Option Authenticator

-- `ConnectorStateManager::State`.
pub data State : Type 0 where
  initializing ready_to_connect rtc_connecting rtc_connected rtc_disconnecting rtc_failed : State
  disconnected : State

pub record ConnectorStateManager : Type 0 where
  pub state : State
  pub has_signaling_client : Bool
  pub stop_flag : Bool

-- `PeerConnectionManager::Impl`; `calls` is what was called on WebRTC, the newest first. The three
-- threads live and die together.
pub record PeerConnectionManager (env : Env) : Type 0 where
  pub has_signaling_client : Bool
  pub has_factory : Bool
  pub has_peer_connection : Bool
  pub has_observer : Bool
  pub has_threads : Bool
  pub config : WebRtcConfig
  pub calls : List (Call env.rtc.Sdp env.rtc.Candidate)

pub record MosaicConnector (env : Env) : Type 0 where
  pub has_manager : Bool
  pub data_channel_handlers : Dict env.channels.Handler
  pub media_track_handlers : Dict env.tracks.Handler

pub record Core (env : Env) : Type 0 where
  pub signaling : SignalingClient
  pub states : ConnectorStateManager
  pub peer : PeerConnectionManager env
  pub connector : MosaicConnector env

-- The system: the WebSocket client beside its owner.
abbrev pub System : Env → Type 0
System env = Link (Core env)

-- An action of the system.
abbrev pub Action : Env → Type 0 → Type 0
Action env A = Exec (System env) A

module _ {env : Env} where
  abbrev pub put_signaling : (SignalingClient → SignalingClient) → System env → System env
  put_signaling f s = record s { owner = record s.owner { signaling = f s.owner.signaling } }

  abbrev pub put_states : (ConnectorStateManager → ConnectorStateManager) → System env → System env
  put_states f s = record s { owner = record s.owner { states = f s.owner.states } }

  abbrev pub put_peer :
      (PeerConnectionManager env → PeerConnectionManager env) → System env → System env
  put_peer f s = record s { owner = record s.owner { peer = f s.owner.peer } }

  abbrev pub put_connector : (MosaicConnector env → MosaicConnector env) → System env → System env
  put_connector f s = record s { owner = record s.owner { connector = f s.owner.connector } }
