-- ===== src/Factory.antt =====
-- src/core/mosaic_connector_factory.cpp, and `ShuttingDown` of src/core/mosaic_connector.cpp: how
-- the system comes to be and how it is taken down.
pub mod Shutdown
pub mod Tied
pub mod Comeback
pub mod Lifetime
pub mod Owners
pub mod Unauthenticated
use mosaic_core.Base.{Bool, true, false, Option, none, some, [], ◌==◌}
use mosaic_core.Base.Int.{negsuc}
use mosaic_core.Exec.{pure, gets, modify, when, deref, ◌>>=◌, ◌>>◌}
use mosaic_core.Config.{ServerConfig, get_signaling_url}
use mosaic_core.Auth.{Authenticator, create_authenticator}
use mosaic_core.Env.{Env}
use mosaic_core.System.{
  Action, System, initializing, disconnected, put_signaling, put_states, put_peer, put_connector,
}
use mosaic_core.WebSocket.{Task, new_ws}
use mosaic_core.StateManager.{set_state}
use mosaic_core.PeerConnection.{initialize_webrtc, close_peer_connection, destroy}
use mosaic_core.Signaling.Receive.{start, stop}

module _ (env : Env) where
  -- A signaling client and nothing else.
  abbrev pub fresh : ServerConfig → System env
  fresh c = record {
    ws = new_ws;
    owner = record {
      signaling = record {
        is_connected = false;
        has_ws_client = false;
        latest_state = negsuc 0;
        rtc_connection_id = "";
        has_connector = false;
        authenticator = none;
      };
      states = record { state = initializing; has_signaling_client = false; stop_flag = false };
      peer = record {
        has_signaling_client = false;
        has_factory = false;
        has_peer_connection = false;
        has_observer = false;
        has_threads = false;
        config = c.webrtc_config;
        calls = [];
      };
      connector = record {
        has_manager = false;
        data_channel_handlers = [];
        media_track_handlers = [];
      };
    };
  }

  -- The first half of `Create`: without an authenticator there is no connector.
  unfoldable pub create_signaling : ServerConfig → Task → Action env Bool
  unfolding ◌>>=◌
  create_signaling c dial = elim (create_authenticator c.auth_config) [
    | none ↦ pure false
    | some a ↦ do
      modify (put_signaling (λ x. record x { authenticator = some a }))
      start env (get_signaling_url c) dial
      pure true
  ]

  -- The second half: the state manager, the connector and the peer connection manager are made and
  -- tied to one another.
  unfoldable pub create_connector : ServerConfig → Action env Unit
  unfolding ◌>>=◌
  create_connector c = do
    modify (
        put_states
          (λ m. record { state = initializing; has_signaling_client = true; stop_flag = false }))
    modify (
        put_connector (λ x. record {
          has_manager = false;
          data_channel_handlers = [];
          media_track_handlers = [];
        }))
    modify (put_signaling (λ x. record x { has_connector = true }))
    modify (put_peer (λ p. record p { has_signaling_client = true; config = c.webrtc_config }))
    modify (put_connector (λ x. record x { has_manager = true }))
    initialize_webrtc env

  -- `Create`; the Boolean says that the result is not null.
  unfoldable pub create : ServerConfig → Task → Action env Bool
  unfolding create_signaling create_connector ◌>>=◌
  create c dial = do made ← create_signaling c dial; when made (create_connector c); pure made

  -- `StopSignalingServer` of the peer connection manager.
  unfoldable pub stop_signaling_server : Action env Unit
  unfolding ◌>>=◌
  stop_signaling_server = do
    has ← gets (λ s. s.owner.peer.has_signaling_client)
    when has (do stop env; modify (put_peer (λ p. record p { has_signaling_client = false })))

  -- `ShuttingDown` behind its first line.
  unfoldable pub take_down : Action env Unit
  unfolding ◌>>=◌
  take_down = do
    manager ← gets (λ s. s.owner.connector.has_manager)
    deref manager (do stop_signaling_server; close_peer_connection env; destroy env)

  unfoldable pub shutting_down : Action env Unit
  unfolding ◌>>=◌
  shutting_down = do set_state env disconnected; take_down
