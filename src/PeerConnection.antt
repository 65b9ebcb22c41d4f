-- ===== src/PeerConnection.antt =====
-- src/core/peer_connection_manager.cpp: the life of the one WebRTC connection.
pub mod Tracks
pub mod Loop
pub mod Release
pub mod Close
pub mod Replace
pub mod Offer
pub mod Contract
pub mod Points
use mosaic_core.Base.{
  String, ◌<>◌, Bool, true, false, List, [], ◌∷◌, map, ◌||◌, ◌==◌, if◌then◌else◌,
}
use mosaic_core.Exec.{pure, gets, modify, when, catch, deref, ◌>>=◌, ◌>>◌}
use mosaic_core.Config.{IceServerConfig}
use mosaic_core.Env.{
  Env, IceServer, Call, create_peer_connection, set_remote_description, create_answer,
  set_local_description, add_ice_candidate, close,
}
use mosaic_core.System.{
  Action, System, ready_to_connect, rtc_connecting, rtc_connected, rtc_disconnecting, rtc_failed,
  put_peer,
}
use mosaic_core.Signaling.{send_sdp_answer}
use mosaic_core.Signaling
use mosaic_core.StateManager.{set_state, is_state}
use Tracks.{log_call, create_all_media_tracks, close_all_media_tracks, close_all_data_channels}

abbrev is_empty {ℓ} : {A : Type ℓ} → List A → Bool
is_empty [] = true
is_empty (x ∷ xs) = false

-- Without urls, a user name and a credential the server comes out empty.
unfoldable pub get_ice_server : IceServerConfig → IceServer
get_ice_server c =
    if is_empty c.urls || (c.username == "" || c.credential == "")
    then record { urls = []; username = ""; password = "" }
    else record {
      urls = map (λ url. "turn:" <> url) c.urls;
      username = c.username;
      password = c.credential;
    }

module _ (env : Env) where
  open env use {rtc}

  -- The threads are started and the factory is made; a null factory is only written to the log.
  unfoldable pub initialize_webrtc : Action env Unit
  unfolding ◌>>=◌
  initialize_webrtc = do
    modify (put_peer (λ p. record p { has_threads = true; has_factory = rtc.creates_factory }))
    set_state env ready_to_connect

  -- `CreatePeerConnection`: on an error the old pointer stays.
  unfoldable pub open_peer_connection : Action env Unit
  unfolding log_call ◌>>=◌
  open_peer_connection = do
    modify (put_peer (λ p. record p { has_observer = true }))
    peer ← gets (λ s. s.owner.peer)
    let servers = map get_ice_server peer.config.ice_servers
    deref peer.has_factory (do
      log_call env (create_peer_connection servers)
      when (rtc.creates_peer_connection peer.calls servers)
          (modify (put_peer (λ p. record p { has_peer_connection = true }))))

  unfoldable pub on_connection_connected : Action env Unit
  on_connection_connected = set_state env rtc_connected

  unfoldable pub on_connection_disconnected : Action env Unit
  on_connection_disconnected = set_state env ready_to_connect

  -- The body of the `try` of `ClosePeerConnection`.
  unfoldable pub release_connection : Action env Unit
  unfolding log_call ◌>>=◌
  release_connection = do
    close_all_media_tracks env
    close_all_data_channels env
    has ← gets (λ s. s.owner.peer.has_peer_connection)
    when has
        (do log_call env close; modify (put_peer (λ p. record p { has_peer_connection = false })))

  unfoldable pub close_peer_connection : Action env Unit
  unfolding on_connection_disconnected ◌>>=◌
  close_peer_connection = do
    active ← gets (λ s. is_state env rtc_connected s || is_state env rtc_connecting s)
    when active (do
      set_state env rtc_disconnecting
      catch release_connection (λ e. pure tt)
      on_connection_disconnected)

  -- What `HandleSdpOffer` does once the state is READY_TO_CONNECT.
  unfoldable pub accept_offer : rtc.Sdp → Action env Unit
  unfolding log_call ◌>>=◌
  accept_offer sdp = do
    set_state env rtc_connecting
    open_peer_connection
    has ← gets (λ s. s.owner.peer.has_peer_connection)
    if has then log_call env (set_remote_description sdp) else set_state env rtc_failed

  unfoldable pub handle_sdp_offer : rtc.Sdp → Action env Unit
  unfolding ◌>>=◌
  handle_sdp_offer sdp = do
    has ← gets (λ s. s.owner.peer.has_peer_connection)
    when has close_peer_connection
    ready ← gets (λ s. is_state env ready_to_connect s)
    when ready (accept_offer sdp)

  unfoldable pub after_set_session_description : Action env Unit
  unfolding log_call ◌>>=◌
  after_set_session_description = do
    create_all_media_tracks env
    has ← gets (λ s. s.owner.peer.has_peer_connection)
    deref has (log_call env create_answer)

  unfoldable pub after_create_sdp_answer : rtc.Sdp → Action env Unit
  unfolding log_call ◌>>=◌
  after_create_sdp_answer desc = do
    has ← gets (λ s. s.owner.peer.has_peer_connection)
    deref has (log_call env (set_local_description desc))

  unfoldable pub after_set_local_description : rtc.Sdp → Action env Unit
  unfolding ◌>>=◌
  after_set_local_description desc = do
    has ← gets (λ s. s.owner.peer.has_signaling_client)
    deref has (send_sdp_answer env desc)

  unfoldable pub handle_ice_candidate : rtc.Candidate → Action env Unit
  unfolding log_call ◌>>=◌
  handle_ice_candidate candidate = do
    has ← gets (λ s. s.owner.peer.has_peer_connection)
    when has (log_call env (add_ice_candidate candidate))

  unfoldable pub send_ice_candidate : rtc.Candidate → Action env Unit
  unfolding ◌>>=◌
  send_ice_candidate candidate = do
    has ← gets (λ s. s.owner.peer.has_signaling_client)
    deref has (Signaling.send_ice_candidate env candidate)

  -- The pointers are dropped; `Close` is not called.
  unfoldable pub destroy : Action env Unit
  destroy = modify (
      put_peer (λ p. record p {
        has_peer_connection = false;
        has_observer = false;
        has_factory = false;
        has_threads = false;
      }))
