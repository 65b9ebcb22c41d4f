-- ===== src/Connector.antt =====
-- src/core/mosaic_connector.cpp and src/core/peer_connection_observer.cpp: the registered handlers,
-- and what WebRTC reports.
use mosaic_core.Base.{Bool, true, false, Option, none, some, if◌then◌else◌}
use mosaic_core.Base.Dict.{lookup, insert}
use mosaic_core.Exec.{pure, gets, modify, deref, ◌>>=◌, ◌>>◌}
use mosaic_core.Env.{Env, ChannelState, open_}
use mosaic_core.System.{Action, put_connector}
use mosaic_core.PeerConnection
use mosaic_core.PeerConnection.{
  handle_ice_candidate, close_peer_connection, on_connection_connected,
}
use mosaic_core.PeerConnection.Tracks.{with_channel}

abbrev is_open : ChannelState → Bool
is_open open_ = true
is_open _ = false

-- `PeerConnectionInterface::PeerConnectionState`.
pub data PeerConnectionState : Type 0 where
  new connecting connected disconnected failed closed : PeerConnectionState

module _ (env : Env) where
  open env use {rtc, channels, tracks}

  abbrev pub unless_found {ℓ} : {H : Type ℓ} → Option H → Action env Unit → Action env Unit
  unless_found (some _) m = pure tt
  unless_found none m = m

  -- A label that is taken keeps its handler.
  unfoldable pub add_data_channel_handler : channels.Handler → Action env Unit
  unfolding ◌>>=◌
  add_data_channel_handler h = do
    dict ← gets (λ s. s.owner.connector.data_channel_handlers)
    let label = channels.get_label h
    unless_found (lookup label dict)
        (modify (put_connector (λ c. record c { data_channel_handlers = insert label h dict })))

  unfoldable pub add_media_track_handler : tracks.Handler → Action env Unit
  unfolding ◌>>=◌
  add_media_track_handler t = do
    dict ← gets (λ s. s.owner.connector.media_track_handlers)
    let name = tracks.get_track_name t
    unless_found (lookup name dict)
        (modify (put_connector (λ c. record c { media_track_handlers = insert name t dict })))

  -- A call through `peer_connection_manager_`.
  unfoldable pub through_manager : Action env Unit → Action env Unit
  unfolding ◌>>=◌
  through_manager m = do has ← gets (λ s. s.owner.connector.has_manager); deref has m

  unfoldable pub handle_sdp_offer : rtc.Sdp → Action env Unit
  unfolding through_manager
  handle_sdp_offer sdp = through_manager (PeerConnection.handle_sdp_offer env sdp)

  unfoldable pub handle_ice_candidate_from_signaling : rtc.Candidate → Action env Unit
  unfolding through_manager handle_ice_candidate
  handle_ice_candidate_from_signaling c = through_manager (handle_ice_candidate env c)

  unfoldable pub close_connection : Action env Unit
  unfolding through_manager
  close_connection = through_manager (close_peer_connection env)

  unfoldable pub attach_channel : channels.Channel → channels.Handler → Action env Unit
  unfolding with_channel ◌>>=◌
  attach_channel ch h =
      if is_open (channels.get_state h)
      then pure tt
      else with_channel env (channels.channel_label ch) h (do
        channels.set_data_channel_interface ch
        channels.register_data_channel_observer
        channels.after_create)

  unfoldable pub attach_found : channels.Channel → Option channels.Handler → Action env Unit
  attach_found ch none = pure tt
  attach_found ch (some h) = attach_channel ch h

  unfoldable pub on_data_channel : channels.Channel → Action env Unit
  unfolding attach_found ◌>>=◌
  on_data_channel ch = do
    dict ← gets (λ s. s.owner.connector.data_channel_handlers)
    attach_found ch (lookup (channels.channel_label ch) dict)

  -- The observer's events.
  unfoldable pub on_ice_candidate : Option rtc.Candidate → Action env Unit
  on_ice_candidate none = pure tt
  on_ice_candidate (some c) = PeerConnection.send_ice_candidate env c

  unfoldable pub on_connection_change : PeerConnectionState → Action env Unit
  on_connection_change new = pure tt
  on_connection_change connecting = pure tt
  on_connection_change connected = on_connection_connected env
  on_connection_change failed = close_peer_connection env
  on_connection_change disconnected = close_peer_connection env
  on_connection_change closed = close_peer_connection env
