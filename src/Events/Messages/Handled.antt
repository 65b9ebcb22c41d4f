-- ===== src/Events/Messages/Handled.antt =====
-- src/signaling/signaling_client.cpp: the same behind the handlers of the messages.
use mosaic_core.Base.{◌≡◌, refl, String, Option, Bool, none, some, arith}
use mosaic_core.Exec.{ok, modify, lift, ◌>>=◌}
use mosaic_core.Exec.Keeps.{keeps_rules, Keeps-if, Keeps-pure, Keeps-read, Keeps-guarded}
use mosaic_core.Env.{Env}
use mosaic_core.Auth.{Authenticator}
use mosaic_core.System.{Action, State}
use mosaic_core.WebSocket.{
  completed, canceled, failed, Incoming, ping_message, pong_message, close_message, binary_message,
  text_message, handle_message,
}
use mosaic_core.WebSocket.Keeps.{Hears, Keeps-handle_message}
use mosaic_core.Signaling.Receive.{
  resolved_offer, resolved_candidate, parsed, handle_authentication_complete,
  handle_authorization_message, handle_ping_pong, handle_prepare_connection, through_connector,
  handle_send_sdp_offer, resolve_ice_candidate, handle_exchange_ice_candidate,
  handle_close_connection, dispatch, on_message, on_ws_message, callbacks,
}
use mosaic_core.PeerConnection
use mosaic_core.PeerConnection.{
  close_peer_connection, accept_offer, handle_ice_candidate, after_set_session_description,
  after_create_sdp_answer, after_set_local_description,
}
use mosaic_core.Connector
use mosaic_core.Connector.{
  PeerConnectionState, new, connecting, connected, failed, closed, through_manager,
  handle_ice_candidate_from_signaling, close_connection, attach_channel, on_data_channel,
  on_ice_candidate, on_connection_change,
}
use mosaic_core.Events.Messages.{
  value_of, ReadAs, OnState, Kept, Kept-send_ws_message, Kept-log_call, Kept-callbacks,
  Kept-authorization,
}

module _ (env : Env) (R : Option Authenticator → State → Bool → Type 0)
    (offer : (sdp : env.rtc.Sdp) → Kept env R (PeerConnection.handle_sdp_offer env sdp))
    (close : Kept env R (close_peer_connection env)) where
  Kept-handle_ice_candidate : (c : env.rtc.Candidate) → Kept env R (handle_ice_candidate env c)
  unfolding handle_ice_candidate
  Kept-handle_ice_candidate c = search (keeps_rules, (Kept-log_call env R))

  Kept-through_manager : (m : Action env Unit) → Kept env R m → Kept env R (through_manager env m)
  unfolding through_manager
  Kept-through_manager m k = record { at = λ s h. ground (arith, k.at s h) }

  Kept-through_connector :
      (m : Action env Unit) → Kept env R m → Kept env R (through_connector env m)
  unfolding through_connector
  Kept-through_connector m k = record { at = λ s h. ground (arith, k.at s h) }

  Kept-accept : (o : Option env.rtc.Sdp) → Kept env R (resolved_offer env o)
  unfolding resolved_offer Connector.handle_sdp_offer
  Kept-accept none = Keeps-pure tt
  Kept-accept (some sdp) = search (Kept-through_connector, Kept-through_manager, offer)

  Kept-candidate : (o : Option env.rtc.Candidate) → Kept env R (resolved_candidate env o)
  unfolding resolved_candidate handle_ice_candidate_from_signaling
  Kept-candidate none = Keeps-pure tt
  Kept-candidate (some c) =
      search (Kept-through_connector, Kept-through_manager, Kept-handle_ice_candidate)

  Kept-handle_send_sdp_offer : (v : env.json.Value) → Kept env R (handle_send_sdp_offer env v)
  unfolding handle_send_sdp_offer
  Kept-handle_send_sdp_offer v = search (keeps_rules, Kept-accept)

  Kept-resolve_ice_candidate : (v : env.json.Value) → Kept env R (resolve_ice_candidate env v)
  unfolding resolve_ice_candidate
  Kept-resolve_ice_candidate v = search keeps_rules depth 20

  Kept-handle_exchange_ice_candidate :
      (v : env.json.Value) → Kept env R (handle_exchange_ice_candidate env v)
  unfolding handle_exchange_ice_candidate
  Kept-handle_exchange_ice_candidate v =
      search (keeps_rules, Kept-resolve_ice_candidate, Kept-candidate) depth 7

  Kept-handle_close_connection : Kept env R (handle_close_connection env)
  unfolding handle_close_connection close_connection
  Kept-handle_close_connection =
      Kept-through_connector (through_manager env (close_peer_connection env))
        (Kept-through_manager (close_peer_connection env) close)

  Kept-handle_prepare_connection :
      (v : env.json.Value) → Kept env R (handle_prepare_connection env v)
  unfolding handle_prepare_connection modify
  Kept-handle_prepare_connection v = search keeps_rules

  module _ (v : env.json.Value)
      (authorization : (type : String) (body : env.json.Value)
        → ReadAs env v type body
        → Kept env R (handle_authorization_message env type body)) where
    Kept-authorize :
        (type : String)
        → ((body : env.json.Value) → env.json.get v "data" ≡ ok body → ReadAs env v type body)
        → Kept env R
            (lift (env.json.get v "data") >>= λ body. handle_authorization_message env type body)
    Kept-authorize type read = Keeps-read _ _ (λ body e. authorization type body (read body e))

    with_data :
        {f : env.json.Value → Action env Unit}
        → ((body : env.json.Value) → Kept env R (f body))
        → Kept env R (lift (env.json.get v "data") >>= f)
    with_data k = Keeps-read _ _ (λ body e. k body)

    Kept-dispatch :
        (type : String)
        → ((body : env.json.Value) → env.json.get v "data" ≡ ok body → ReadAs env v type body)
        → Kept env R (dispatch env type v)
    unfolding dispatch handle_ping_pong
    Kept-dispatch type read = Keeps-if _ _ _ (with_data Kept-handle_send_sdp_offer) (
        Keeps-if _ _ _ (with_data Kept-handle_prepare_connection) (
          Keeps-if _ _ _ (with_data Kept-handle_exchange_ice_candidate) (
            Keeps-if _ _ _ Kept-handle_close_connection (
              Keeps-if _ _ _ (Kept-authorize type read)
                (Keeps-if _ _ _ (Kept-send_ws_message env R _) (Keeps-pure tt))))))

    Kept-on_message : Kept env R (on_message env v)
    unfolding on_message
    Kept-on_message = Keeps-read _ _ (λ tag typed. Keeps-guarded _ _ (λ present.
        Keeps-read _ _ (λ type named. Kept-dispatch type (λ body held. record {
          tag = tag;
          typed = typed;
          present = present;
          named = named;
          held = held;
        }))))

  Kept-parsed :
      (o : Option env.json.Value)
      → ((v : env.json.Value)
          → o ≡ some v
          → (type : String) (body : env.json.Value) → ReadAs env v type body
          → Kept env R (handle_authorization_message env type body))
      → Kept env R (parsed env o)
  unfolding parsed
  Kept-parsed none k = Keeps-pure tt
  Kept-parsed (some v) k = Kept-on_message v (k v refl)

  Kept-heard :
      (m : Incoming)
      → ((v : env.json.Value)
          → value_of env m ≡ some v
          → (type : String) (body : env.json.Value) → ReadAs env v type body
          → Kept env R (handle_authorization_message env type body))
      → Hears (OnState env R) (callbacks env).on_message m
  unfolding callbacks on_ws_message
  Kept-heard (text_message completed body) k = Kept-parsed (env.json.parse body) k
  Kept-heard (text_message canceled body) k = tt
  Kept-heard (text_message (failed e) body) k = tt
  Kept-heard ping_message k = tt
  Kept-heard pong_message k = tt
  Kept-heard close_message k = tt
  Kept-heard binary_message k = tt

  -- A message is covered if the messages on authorization that it may be read as are.
  pub Kept-message :
      (m : Incoming)
      → ((v : env.json.Value)
          → value_of env m ≡ some v
          → (type : String) (body : env.json.Value) → ReadAs env v type body
          → Kept env R (handle_authorization_message env type body))
      → Kept env R (handle_message env.net (callbacks env) m)
  Kept-message m k =
      Keeps-handle_message (OnState env R) env.net (callbacks env) (Kept-callbacks env R) m
        (Kept-heard m k)

  pub Kept-any_message :
      ((a : Authenticator) → Kept env R (handle_authentication_complete env a))
      → (m : Incoming) → Kept env R (handle_message env.net (callbacks env) m)
  Kept-any_message complete m =
      Kept-message m (λ v e type body read. Kept-authorization env R complete type body)
