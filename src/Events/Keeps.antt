-- ===== src/Events/Keeps.antt =====
-- src/core/peer_connection_manager.cpp, mosaic_connector.cpp and peer_connection_observer.cpp: the
-- same behind each event.
use mosaic_core.Base.{String, Bool, ◌≡◌, refl, Option, none, some, List, [], ◌∷◌, arith}
use mosaic_core.Exec.{Exec}
use mosaic_core.Exec.Keeps.{keeps_rules, Keeps-pure}
use mosaic_core.Env.{Env}
use mosaic_core.System.{System, State}
use mosaic_core.WebSocket.Keeps.{Keeps-handle_close, Keeps-reconnect}
use mosaic_core.Signaling
use mosaic_core.Signaling.{send_ws_message, send_state, send_sdp_answer}
use mosaic_core.Signaling.Receive.{callbacks, handle_authentication_complete}
use mosaic_core.Auth.{Authenticator}
use mosaic_core.WebSocket.{Incoming, handle_message}
use mosaic_core.StateManager.{broadcast_round}
use mosaic_core.PeerConnection
use mosaic_core.PeerConnection.{
  close_peer_connection, on_connection_connected, accept_offer, handle_ice_candidate,
  after_set_session_description, after_create_sdp_answer, after_set_local_description,
}
use mosaic_core.PeerConnection.Tracks.{
  with_track, with_channel, create_video_track, add_video_track, create_media_track,
  create_all_media_tracks,
}
use mosaic_core.PeerConnection.Loop.{Keeps-for_each}
use mosaic_core.Connector
use mosaic_core.Connector.{
  PeerConnectionState, new, connecting, connected, failed, closed, through_manager,
  handle_ice_candidate_from_signaling, close_connection, attach_channel, on_data_channel,
  on_ice_candidate, on_connection_change,
}
use mosaic_core.Events.{
  Event, message, socket_closed, reconnects, broadcast, remote_description_set, answer_created,
  local_description_set, candidate_gathered, data_channel_opened, connection_changed, step, run,
}
use mosaic_core.Events.Messages.{
  OnState, Kept, Kept-send_ws_message, Kept-log_call, Kept-report_state, Kept-callbacks,
}
use mosaic_core.Events.Messages.Handled.{Kept-any_message}

module _ (env : Env) (R : Option Authenticator → State → Bool → Type 0)
    (offer : (sdp : env.rtc.Sdp) → Kept env R (PeerConnection.handle_sdp_offer env sdp))
    (close : Kept env R (close_peer_connection env)) where
  Kept-with_track :
      {A : Type 0} (k : String) (t : env.tracks.Handler) (m : Exec env.tracks.Handler A)
      → Kept env R (with_track env k t m)
  unfolding with_track
  Kept-with_track k t m = record { at = λ s h. h }

  Kept-add_video_track : (name : String) → Kept env R (add_video_track env name)
  unfolding add_video_track
  Kept-add_video_track name = search (keeps_rules, Kept-log_call env R)

  Kept-create_video_track : (name : String) → Kept env R (create_video_track env name)
  unfolding create_video_track
  Kept-create_video_track name = search keeps_rules

  Kept-create_media_track :
      (name : String) (t : env.tracks.Handler) → Kept env R (create_media_track env name t)
  unfolding create_media_track
  Kept-create_media_track name t =
      search (keeps_rules, Kept-with_track, Kept-create_video_track, Kept-add_video_track) depth 9

  Kept-create_all_media_tracks : Kept env R (create_all_media_tracks env)
  unfolding create_all_media_tracks
  Kept-create_all_media_tracks = record {
    at = λ s.
        (Keeps-for_each env {P = λ (x : System env). OnState env R x.owner} (create_media_track env)
            Kept-create_media_track s.owner.connector.media_track_handlers).at
          s;
  }

  Kept-after_set_session_description : Kept env R (after_set_session_description env)
  unfolding after_set_session_description
  Kept-after_set_session_description =
      search (keeps_rules, Kept-create_all_media_tracks, Kept-log_call env R)

  Kept-after_create_sdp_answer : (d : env.rtc.Sdp) → Kept env R (after_create_sdp_answer env d)
  unfolding after_create_sdp_answer
  Kept-after_create_sdp_answer d = search (keeps_rules, Kept-log_call env R)

  Kept-after_set_local_description :
      (d : env.rtc.Sdp) → Kept env R (after_set_local_description env d)
  unfolding after_set_local_description send_sdp_answer
  Kept-after_set_local_description d = search (keeps_rules, Kept-send_ws_message env R) depth 8

  Kept-on_ice_candidate : (c : Option env.rtc.Candidate) → Kept env R (on_ice_candidate env c)
  unfolding on_ice_candidate PeerConnection.send_ice_candidate Signaling.send_ice_candidate
  Kept-on_ice_candidate none = Keeps-pure tt
  Kept-on_ice_candidate (some c) = search (keeps_rules, Kept-send_ws_message env R) depth 8

  Kept-on_data_channel : (ch : env.channels.Channel) → Kept env R (on_data_channel env ch)
  unfolding on_data_channel attach_channel with_channel
  Kept-on_data_channel ch = record { at = λ s h. ground arith }

  Kept-broadcast_round : Kept env R (broadcast_round env)
  unfolding broadcast_round
  Kept-broadcast_round = search (keeps_rules, Kept-report_state) depth 7

  pub Kept-step :
      (e : Event env)
      → ((m : Incoming) → e ≡ message m → Kept env R (handle_message env.net (callbacks env) m))
      → (e ≡ connection_changed connected → Kept env R (on_connection_connected env))
      → Kept env R (step env e)
  unfolding step on_connection_change
  Kept-step (message m) heard h = heard m refl
  Kept-step socket_closed heard h =
      Keeps-handle_close (OnState env R) env.net (callbacks env) (Kept-callbacks env R)
  Kept-step (reconnects d) heard h =
      Keeps-reconnect (OnState env R) env.net (callbacks env) (Kept-callbacks env R) d
  Kept-step broadcast heard h = Kept-broadcast_round
  Kept-step remote_description_set heard h = Kept-after_set_session_description
  Kept-step (answer_created d) heard h = Kept-after_create_sdp_answer d
  Kept-step (local_description_set d) heard h = Kept-after_set_local_description d
  Kept-step (candidate_gathered c) heard h = Kept-on_ice_candidate c
  Kept-step (data_channel_opened ch) heard h = Kept-on_data_channel ch
  Kept-step (connection_changed new) heard h = Keeps-pure tt
  Kept-step (connection_changed connecting) heard h = Keeps-pure tt
  Kept-step (connection_changed connected) heard h = h refl
  Kept-step (connection_changed failed) heard h = close
  Kept-step (connection_changed Connector.disconnected) heard h = close
  Kept-step (connection_changed closed) heard h = close

  -- With what a report of a connection keeps, a whole run is covered.
  pub Kept-run :
      ((a : Authenticator) → Kept env R (handle_authentication_complete env a))
      → Kept env R (on_connection_connected env)
      → (es : List (Event env)) (s : System env) → OnState env R s.owner
      → OnState env R (run env es s).owner
  unfolding run
  Kept-run complete up [] s h = h
  Kept-run complete up (e ∷ es) s h =
      Kept-run complete up es (step env e s).1
        ((Kept-step e (λ m _. Kept-any_message env R offer close complete m) (λ _. up)).at s h)
