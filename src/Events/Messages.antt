-- ===== src/Events/Messages.antt =====
-- src/signaling/signaling_client.cpp: what depends only on the state of the connector and on whether
-- there is a peer connection, behind each message.
pub mod Handled
use mosaic_core.Base.{◌≡◌, refl, not, String, Option, Bool, true, false, none, some, arith}
use mosaic_core.Base.Int.{ℤ}
use mosaic_core.Exec.{ok, modify, lift, ◌>>=◌}
use mosaic_core.Exec.Keeps.{Keeps, keeps_rules, Keeps-if, Keeps-pure, Keeps-read, Keeps-guarded}
use mosaic_core.Env.{Env, Call}
use mosaic_core.Auth.{Authenticator}
use mosaic_core.System.{System, Action, Core, State}
use mosaic_core.WebSocket.{
  completed, canceled, failed, Incoming, ping_message, pong_message, close_message, binary_message,
  text_message, handle_message,
}
use mosaic_core.WebSocket.Keeps.{KeepsCallbacks, Hears, Keeps-send, Keeps-handle_message}
use mosaic_core.Signaling.{send_ws_message, send_state}
use mosaic_core.Signaling.Receive.{
  authenticated_by, resolved_offer, resolved_candidate, parsed, handle_authentication_req,
  handle_authentication_complete, with_authenticator, authorized, handle_authorization_message,
  handle_ping_pong, handle_prepare_connection, through_connector, handle_send_sdp_offer,
  resolve_ice_candidate, handle_exchange_ice_candidate, handle_close_connection, dispatch,
  on_message, on_ws_message, set_connected, on_connected, callbacks,
}
use mosaic_core.StateManager.{report_state}
use mosaic_core.PeerConnection
use mosaic_core.PeerConnection.{
  close_peer_connection, accept_offer, handle_ice_candidate, after_set_session_description,
  after_create_sdp_answer, after_set_local_description,
}
use mosaic_core.PeerConnection.Tracks.{log_call}
use mosaic_core.Connector
use mosaic_core.Connector.{
  PeerConnectionState, new, connecting, connected, failed, closed, through_manager,
  handle_ice_candidate_from_signaling, close_connection, attach_channel, on_data_channel,
  on_ice_candidate, on_connection_change,
}

-- The value that a message is read as, if its text comes in.
abbrev pub value_of : (env : Env) → Incoming → Option env.json.Value
value_of env (text_message completed body) = env.json.parse body
value_of env _ = none

-- The tests of `OnMessage`, passed: the type and the data of the value.
pub record ReadAs (env : Env) (v : env.json.Value) (type : String) (body : env.json.Value)
    : Type 0 where
  pub tag : env.json.Value
  pub typed : env.json.get v "type" ≡ ok tag
  pub present : not (env.json.is_null tag) ≡ true
  pub named : env.json.as_string tag ≡ ok type
  pub held : env.json.get v "data" ≡ ok body

module _ (env : Env) (R : Option Authenticator → State → Bool → Type 0) where
  abbrev pub OnState : Core env → Type 0
  OnState c = R c.signaling.authenticator c.states.state c.peer.has_peer_connection

  abbrev pub Kept : {A : Type 0} → Action env A → Type 0
  Kept m = Keeps (λ (s : System env). OnState s.owner) m

module _ (env : Env) (R : Option Authenticator → State → Bool → Type 0) where
  pub Kept-send_ws_message : (v : env.json.Value) → Kept env R (send_ws_message env v)
  unfolding send_ws_message
  Kept-send_ws_message v = search (keeps_rules, Keeps-send (OnState env R) env.net)

  pub Kept-log_call : (c : Call env.rtc.Sdp env.rtc.Candidate) → Kept env R (log_call env c)
  unfolding log_call modify
  Kept-log_call c = record { at = λ s h. h }

  pub Kept-send_state : (z : ℤ) → Kept env R (send_state env z)
  unfolding send_state modify
  Kept-send_state z = record { at = λ s h. ground arith }

  pub Kept-report_state : Kept env R (report_state env)
  unfolding report_state
  Kept-report_state = search (keeps_rules, Kept-send_state)

  pub Kept-set_connected : (b : Bool) → Kept env R (set_connected env b)
  unfolding set_connected modify
  Kept-set_connected b = record { at = λ s h. h }

  pub Kept-on_connected : Kept env R (on_connected env)
  unfolding on_connected
  Kept-on_connected = search (keeps_rules, Kept-set_connected, Kept-send_state) depth 7

  pub Kept-callbacks : KeepsCallbacks (OnState env R) (callbacks env)
  unfolding callbacks
  Kept-callbacks = record {
    on_connected = Kept-on_connected;
    on_disconnected = Kept-set_connected false;
    on_error = λ e. Kept-set_connected false;
  }

  Kept-authenticated :
      (o : Option Authenticator) (f : Authenticator → Action env Unit)
      → ((a : Authenticator) → Kept env R (f a))
      → Kept env R (authenticated_by env f o)
  unfolding authenticated_by
  Kept-authenticated none f k = search keeps_rules
  Kept-authenticated (some a) f k = k a

  pub Kept-with_authenticator :
      (f : Authenticator → Action env Unit)
      → ((a : Authenticator) → Kept env R (f a))
      → Kept env R (with_authenticator env f)
  unfolding with_authenticator
  Kept-with_authenticator f k = search (keeps_rules, Kept-authenticated)

  -- Any message on authorization, if a completed one keeps it.
  pub Kept-authorization :
      ((a : Authenticator) → Kept env R (handle_authentication_complete env a))
      → (type : String) (v : env.json.Value) → Kept env R (handle_authorization_message env type v)
  unfolding handle_authorization_message handle_authentication_req authorized
  Kept-authorization complete type v =
      search (keeps_rules, Kept-with_authenticator, complete, Kept-send_ws_message) depth 9
