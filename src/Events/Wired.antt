-- ===== src/Events/Wired.antt =====
-- The pointers between the objects of src/core, src/signaling and src/security that the factory sets, and
-- what is safe to call while they are there.
use mosaic_core.Base.{String, ◌≡◌, ◌≢◌, Bool, true, false, Option, none, some, arith, ◌∷◌}
use mosaic_core.Base.Int.{ℤ}
use mosaic_core.Exec.{fault, Exec, gets, modify, ◌>>=◌}
use mosaic_core.Exec.Safe.{Safe, Safe-flag, safe_rules}
use mosaic_core.Env.{Env, Call}
use mosaic_core.System.{
  System, Action, State, ConnectorStateManager, put_states, put_signaling, put_peer, rtc_connected,
}
use mosaic_core.WebSocket.{
  Frame, Ws, Task, completed, canceled, failed, await, set_ws, transmit, send_pong, send,
}
use mosaic_core.Signaling.{send_ws_message, send_state, send_sdp_answer}
use mosaic_core.Signaling
use mosaic_core.StateManager.{report_state, set_state}
use mosaic_core.PeerConnection
use mosaic_core.PeerConnection.{
  open_peer_connection, release_connection, close_peer_connection, accept_offer,
  on_connection_connected, handle_ice_candidate, after_set_local_description,
  on_connection_disconnected,
}
use mosaic_core.PeerConnection.Loop.{Safe-for_each}
use mosaic_core.PeerConnection.Tracks.{
  with_track, with_channel, log_call, close_all_media_tracks, close_all_data_channels,
}

abbrev pub present : {A : Type 0} → Option A → Bool
present none = false
present (some a) = true

-- No pointer that a message goes through is null.
pub record Wired {env : Env} (s : System env) : Type 0 where
  pub client : s.ws.has_client ≡ true
  pub ws_client : s.owner.signaling.has_ws_client ≡ true
  pub connector : s.owner.signaling.has_connector ≡ true
  pub authenticator : present s.owner.signaling.authenticator ≡ true
  pub manager : s.owner.connector.has_manager ≡ true
  pub reporter : s.owner.peer.has_signaling_client ≡ true
  pub factory : s.owner.peer.has_factory ≡ true

-- jsoncpp throws and does nothing worse, and so do the handlers.
pub record Tame (env : Env) : Type 1 where
  pub get : (v : env.json.Value) (k : String) → env.json.get v k ≢ fault
  pub as_string : (v : env.json.Value) → env.json.as_string v ≢ fault
  pub as_int : (v : env.json.Value) → env.json.as_int v ≢ fault
  pub track_close : (t : env.tracks.Handler) → (env.tracks.close t).0 ≢ fault
  pub track_create : (t : env.tracks.Handler) → (env.tracks.create_video_track_source t).0 ≢ fault
  pub channel_close : (h : env.channels.Handler) → (env.channels.close_data_channel h).0 ≢ fault
  pub channel_set :
      (ch : env.channels.Channel) (h : env.channels.Handler)
      → (env.channels.set_data_channel_interface ch h).0 ≢ fault
  pub channel_register :
      (h : env.channels.Handler) → (env.channels.register_data_channel_observer h).0 ≢ fault
  pub channel_after : (h : env.channels.Handler) → (env.channels.after_create h).0 ≢ fault

module _ (env : Env) where
  -- Safe where the pointers are there, which stay.
  abbrev pub Sound : {A : Type 0} → Action env A → Type 0
  Sound m = Safe (λ (s : System env). Wired s) m

  pub Sound-await : (t : Task) (m n : Action env Unit) → Sound m → Sound n → Sound (await t m n)
  unfolding await
  Sound-await completed m n km kn = km
  Sound-await canceled m n km kn = kn
  Sound-await (failed e) m n km kn = search safe_rules

  pub Sound-set_ws :
      (f : Ws → Ws) → ((w : Ws) → w.has_client ≡ true → (f w).has_client ≡ true) → Sound (set_ws f)
  unfolding modify
  Sound-set_ws f k = record {
    at = λ s w. record {
      client = k s.ws w.client;
      ws_client = w.ws_client;
      connector = w.connector;
      authenticator = w.authenticator;
      manager = w.manager;
      reporter = w.reporter;
      factory = w.factory;
    };
    fine = λ s w. ground arith;
  }

  module _ {A : Type 0} (rest : Bool → Action env A) (k : Sound (rest true)) where
    pub Sound-client : Sound (gets (λ s. s.has_client) >>= rest)
    Sound-client = Safe-flag (λ s. s.has_client) rest (λ s w. w.client) k

    Sound-ws_client : Sound (gets (λ s. s.owner.signaling.has_ws_client) >>= rest)
    Sound-ws_client = Safe-flag (λ s. s.owner.signaling.has_ws_client) rest (λ s w. w.ws_client) k

    pub Sound-connector : Sound (gets (λ s. s.owner.signaling.has_connector) >>= rest)
    Sound-connector = Safe-flag (λ s. s.owner.signaling.has_connector) rest (λ s w. w.connector) k

    pub Sound-manager : Sound (gets (λ s. s.owner.connector.has_manager) >>= rest)
    Sound-manager = Safe-flag (λ s. s.owner.connector.has_manager) rest (λ s w. w.manager) k

    pub Sound-reporter : Sound (gets (λ s. s.owner.peer.has_signaling_client) >>= rest)
    Sound-reporter = Safe-flag (λ s. s.owner.peer.has_signaling_client) rest (λ s w. w.reporter) k

  pub Sound-put_states :
      (f : ConnectorStateManager → ConnectorStateManager) → Sound (modify (put_states f))
  unfolding modify
  Sound-put_states f = record { at = λ s w. ground arith; fine = λ s w. ground arith }

  Sound-latest_state : (z : ℤ) → Sound (modify (put_signaling (λ c. record c { latest_state = z })))
  unfolding modify
  Sound-latest_state z = record { at = λ s w. ground arith; fine = λ s w. ground arith }

  pub Sound-log_call : (c : Call env.rtc.Sdp env.rtc.Candidate) → Sound (log_call env c)
  unfolding log_call modify
  Sound-log_call c = record { at = λ s w. ground arith; fine = λ s w. ground arith }

  Sound-has_observer : Sound (modify (put_peer (λ p. record p { has_observer = true })))
  unfolding modify
  Sound-has_observer = record { at = λ s w. ground arith; fine = λ s w. ground arith }

  Sound-has_peer_connection :
      (b : Bool) → Sound (modify (put_peer (λ p. record p { has_peer_connection = b })))
  unfolding modify
  Sound-has_peer_connection b = record { at = λ s w. ground arith; fine = λ s w. ground arith }

  Sound-sent : (f : Frame) → Sound (set_ws (λ w. record w { sent = f ∷ w.sent }))
  Sound-sent f = Sound-set_ws (λ w. record w { sent = f ∷ w.sent }) (λ w h. h)

  pub Sound-with_track :
      {A : Type 0} (k : String) (t : env.tracks.Handler) (m : Exec env.tracks.Handler A)
      → (m t).0 ≢ fault
      → Sound (with_track env k t m)
  unfolding with_track
  Sound-with_track k t m h = record { at = λ s w. ground arith; fine = λ s w. h }

  pub Sound-with_channel :
      {A : Type 0} (k : String) (h : env.channels.Handler) (m : Exec env.channels.Handler A)
      → (m h).0 ≢ fault
      → Sound (with_channel env k h m)
  unfolding with_channel
  Sound-with_channel k h m f = record { at = λ s w. ground arith; fine = λ s w. f }

  pub Sound-transmit : (f : Frame) → Sound (transmit env.net f)
  unfolding transmit
  Sound-transmit f = search (safe_rules, Sound-client, Sound-await, Sound-sent) depth 8

  pub Sound-send_pong : Sound (send_pong env.net)
  unfolding send_pong
  Sound-send_pong = search (safe_rules, Sound-client, Sound-await, Sound-sent) depth 8

  pub Sound-send : (message : String) → Sound (send env.net message)
  unfolding send
  Sound-send message = search (safe_rules, Sound-transmit)

  pub Sound-send_ws_message : (v : env.json.Value) → Sound (send_ws_message env v)
  unfolding send_ws_message
  Sound-send_ws_message v = search (safe_rules, Sound-ws_client, Sound-send) depth 8

  pub Sound-send_state : (z : ℤ) → Sound (send_state env z)
  unfolding send_state
  Sound-send_state z = search (safe_rules, Sound-latest_state, Sound-send_ws_message) depth 8

  pub Sound-set_state : (n : State) → Sound (set_state env n)
  unfolding set_state report_state
  Sound-set_state n = search (safe_rules, Sound-put_states, Sound-send_state) depth 8

  pub Sound-on_connection_connected : Sound (on_connection_connected env)
  unfolding on_connection_connected
  Sound-on_connection_connected = Sound-set_state rtc_connected

  Sound-open_peer_connection : Sound (open_peer_connection env)
  unfolding open_peer_connection log_call
  Sound-open_peer_connection = record { at = λ s w. ground arith; fine = λ s w. ground arith }

  pub Sound-accept_offer : (sdp : env.rtc.Sdp) → Sound (accept_offer env sdp)
  unfolding accept_offer
  Sound-accept_offer sdp =
      search (safe_rules, Sound-set_state, Sound-open_peer_connection, Sound-log_call) depth 9

  pub Sound-handle_ice_candidate : (c : env.rtc.Candidate) → Sound (handle_ice_candidate env c)
  unfolding handle_ice_candidate
  Sound-handle_ice_candidate c = search (safe_rules, Sound-log_call)

  pub Sound-after_set_local_description :
      (d : env.rtc.Sdp) → Sound (after_set_local_description env d)
  unfolding after_set_local_description send_sdp_answer
  Sound-after_set_local_description d =
      search (safe_rules, Sound-reporter, Sound-send_ws_message) depth 9

  pub Sound-send_ice_candidate :
      (c : env.rtc.Candidate) → Sound (PeerConnection.send_ice_candidate env c)
  unfolding PeerConnection.send_ice_candidate Signaling.send_ice_candidate
  Sound-send_ice_candidate c = search (safe_rules, Sound-reporter, Sound-send_ws_message) depth 9

  module _ (t : Tame env) where
    Sound-release_connection : Sound (release_connection env)
    unfolding release_connection close_all_media_tracks close_all_data_channels
    Sound-release_connection =
        search
          (
            safe_rules,
            Safe-for_each env,
            Sound-with_track,
            Sound-with_channel,
            t.track_close,
            t.channel_close,
            Sound-log_call,
            Sound-has_peer_connection,
          )
          depth 12

    pub Sound-close_peer_connection : Sound (close_peer_connection env)
    unfolding close_peer_connection on_connection_disconnected
    Sound-close_peer_connection =
        search (safe_rules, Sound-set_state, Sound-release_connection) depth 9

    pub Sound-handle_sdp_offer :
        (sdp : env.rtc.Sdp) → Sound (PeerConnection.handle_sdp_offer env sdp)
    unfolding PeerConnection.handle_sdp_offer
    Sound-handle_sdp_offer sdp =
        search (safe_rules, Sound-close_peer_connection, Sound-accept_offer) depth 9
