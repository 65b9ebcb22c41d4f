-- ===== src/Events/NoFault.antt =====
-- src/signaling, src/core: what the server, WebRTC and the threads do to a system whose objects are tied
-- together never calls through a null pointer.
use mosaic_core.Base.{String, ◌≡◌, Bool, true, false≢true, Option, none, some, arith}
use mosaic_core.Exec.{modify, deref, lift}
use mosaic_core.Exec.Safe.{Safe-pure, Safe-lift, safe_rules, sound_rules}
use mosaic_core.Env.{Env}
use mosaic_core.Auth.{Authenticator}
use mosaic_core.System.{Action, put_signaling}
use mosaic_core.Signaling.Receive.{
  authenticated_by, resolved_offer, resolved_candidate, parsed, handle_authentication_req,
  handle_authentication_complete, with_authenticator, authorized, handle_authorization_message,
  handle_ping_pong, handle_prepare_connection, through_connector, handle_send_sdp_offer,
  resolve_ice_candidate, handle_exchange_ice_candidate, handle_close_connection, dispatch,
  on_message, on_ws_message, set_connected, on_connected,
}
use mosaic_core.Connector
use mosaic_core.Connector.{
  PeerConnectionState, new, connecting, connected, disconnected, failed, closed, through_manager,
  handle_ice_candidate_from_signaling, close_connection, attach_channel, on_data_channel,
  on_ice_candidate, on_connection_change,
}
use mosaic_core.Events.Wired.{
  Tame, Sound, present, Sound-connector, Sound-manager, Sound-send_ws_message, Sound-send_state,
  Sound-handle_ice_candidate, Sound-close_peer_connection, Sound-handle_sdp_offer,
}

module _ (env : Env) where
  Sound-through_manager : (m : Action env Unit) → Sound env m → Sound env (through_manager env m)
  unfolding through_manager
  Sound-through_manager m k = Sound-manager env (λ has. deref has m) k

  Sound-through_connector :
      (m : Action env Unit) → Sound env m → Sound env (through_connector env m)
  unfolding through_connector
  Sound-through_connector m k = Sound-connector env (λ has. deref has m) k

  by_present :
      (f : Authenticator → Action env Unit) (o : Option Authenticator)
      → present o ≡ true
      → ((a : Authenticator) → Sound env (f a))
      → Sound env (authenticated_by env f o)
  unfolding authenticated_by
  by_present f none h k = absurd (false≢true h)
  by_present f (some a) h k = k a

  Sound-with_authenticator :
      (f : Authenticator → Action env Unit)
      → ((a : Authenticator) → Sound env (f a))
      → Sound env (with_authenticator env f)
  unfolding with_authenticator
  Sound-with_authenticator f k = record {
    at = λ s w. (by_present f s.owner.signaling.authenticator w.authenticator k).at s w;
    fine = λ s w. (by_present f s.owner.signaling.authenticator w.authenticator k).fine s w;
  }

  Sound-complete : (a : Authenticator) → Sound env (handle_authentication_complete env a)
  unfolding handle_authentication_complete modify
  Sound-complete a = record { at = λ s w. ground arith; fine = λ s w. ground arith }

  Sound-connection_id :
      (id : String) → Sound env (modify (put_signaling (λ c. record c { rtc_connection_id = id })))
  unfolding modify
  Sound-connection_id id = record { at = λ s w. ground arith; fine = λ s w. ground arith }

  pub Sound-set_connected : (b : Bool) → Sound env (set_connected env b)
  unfolding set_connected modify
  Sound-set_connected b = record { at = λ s w. ground arith; fine = λ s w. ground arith }

  module _ (t : Tame env) where
    Sound-get : (v : env.json.Value) (k : String) → Sound env (lift (env.json.get v k))
    Sound-get v k = Safe-lift _ (t.get v k)

    Sound-as_string : (v : env.json.Value) → Sound env (lift (env.json.as_string v))
    Sound-as_string v = Safe-lift _ (t.as_string v)

    Sound-as_int : (v : env.json.Value) → Sound env (lift (env.json.as_int v))
    Sound-as_int v = Safe-lift _ (t.as_int v)

    ruleset json_rules = (Sound-get, Sound-as_string, Sound-as_int, sound_rules)

    Sound-resolved_offer : (o : Option env.rtc.Sdp) → Sound env (resolved_offer env o)
    unfolding resolved_offer Connector.handle_sdp_offer
    Sound-resolved_offer none = Safe-pure tt
    Sound-resolved_offer (some sdp) =
        Sound-through_connector _ (Sound-through_manager _ (Sound-handle_sdp_offer env t sdp))

    Sound-resolved_candidate : (o : Option env.rtc.Candidate) → Sound env (resolved_candidate env o)
    unfolding resolved_candidate handle_ice_candidate_from_signaling
    Sound-resolved_candidate none = Safe-pure tt
    Sound-resolved_candidate (some c) =
        Sound-through_connector _ (Sound-through_manager _ (Sound-handle_ice_candidate env c))

    Sound-handle_send_sdp_offer : (v : env.json.Value) → Sound env (handle_send_sdp_offer env v)
    unfolding handle_send_sdp_offer
    Sound-handle_send_sdp_offer v = search (json_rules, Sound-resolved_offer) depth 9

    Sound-resolve_ice_candidate : (v : env.json.Value) → Sound env (resolve_ice_candidate env v)
    unfolding resolve_ice_candidate
    Sound-resolve_ice_candidate v = search json_rules depth 20

    Sound-handle_exchange_ice_candidate :
        (v : env.json.Value) → Sound env (handle_exchange_ice_candidate env v)
    unfolding handle_exchange_ice_candidate
    Sound-handle_exchange_ice_candidate v =
        search (json_rules, Sound-resolve_ice_candidate, Sound-resolved_candidate) depth 9

    Sound-handle_close_connection : Sound env (handle_close_connection env)
    unfolding handle_close_connection close_connection
    Sound-handle_close_connection =
        Sound-through_connector _ (Sound-through_manager _ (Sound-close_peer_connection env t))

    Sound-handle_prepare_connection :
        (v : env.json.Value) → Sound env (handle_prepare_connection env v)
    unfolding handle_prepare_connection
    Sound-handle_prepare_connection v = search (json_rules, Sound-connection_id) depth 9

    Sound-handle_authorization_message :
        (type : String) (v : env.json.Value) → Sound env (handle_authorization_message env type v)
    unfolding handle_authorization_message handle_authentication_req authorized
    Sound-handle_authorization_message type v =
        search (json_rules, Sound-with_authenticator, Sound-complete, Sound-send_ws_message) depth
          12

    ruleset handler_rules = (
      json_rules, Sound-handle_send_sdp_offer, Sound-handle_exchange_ice_candidate,
      Sound-handle_close_connection, Sound-handle_prepare_connection,
      Sound-handle_authorization_message, Sound-send_ws_message,
    )

    Sound-dispatch : (type : String) (v : env.json.Value) → Sound env (dispatch env type v)
    unfolding dispatch handle_ping_pong
    Sound-dispatch type v = search handler_rules depth 14

    Sound-on_message : (v : env.json.Value) → Sound env (on_message env v)
    unfolding on_message
    Sound-on_message v = search (json_rules, Sound-dispatch) depth 9

    Sound-parsed : (o : Option env.json.Value) → Sound env (parsed env o)
    unfolding parsed
    Sound-parsed none = Safe-pure tt
    Sound-parsed (some v) = Sound-on_message v

    pub Sound-on_ws_message : (msg : String) → Sound env (on_ws_message env msg)
    unfolding on_ws_message
    Sound-on_ws_message msg = Sound-parsed (env.json.parse msg)

    pub Sound-on_connected : Sound env (on_connected env)
    unfolding on_connected
    Sound-on_connected = search (safe_rules, Sound-set_connected, Sound-send_state) depth 9
