-- ===== src/Signaling/Receive.antt =====
-- src/signaling/signaling_client.cpp: what the client receives, and its callbacks; with
-- `HandleAuthenticationReq` and its siblings of src/security.
use text.Mathlib.Text.{starts_with}
use mosaic_core.Base.{String, Bool, true, false, Option, none, some, not, ◌==◌, if◌then◌else◌}
use mosaic_core.Base.Int.{pos, negsuc, ◌==ℤ◌}
use mosaic_core.Base.Dict.{lookup}
use mosaic_core.Exec.{pure, crash, lift, gets, modify, when, deref, ◌>>=◌, ◌>>◌}
use mosaic_core.Config.{AuthConfig, Params}
use mosaic_core.Env.{Env}
use mosaic_core.Auth.{Authenticator, no_auth, simple_token}
use mosaic_core.System.{Action, Core, put_signaling}
use mosaic_core.WebSocket.{Callbacks, Task, new_ws, set_ws, connect, disconnect}
use mosaic_core.Signaling.{message, send_ws_message, send_state}
use mosaic_core.Connector.{handle_sdp_offer, handle_ice_candidate_from_signaling, close_connection}

-- `auth_config_.params["token"]`: a missing key reads as the empty text.
abbrev token : Params → String
token params = elim (lookup "token" params) [ none ↦ "" | some t ↦ t ]

module _ (env : Env) where
  open env use {json, rtc, net}

  abbrev pub robot_body : AuthConfig → json.Value
  robot_body c = json.set json.null "robotId" (json.of_string c.robot_id)

  unfoldable authorize_body : Authenticator → json.Value
  unfolding lookup
  authorize_body a = elim a.kind [
    | no_auth ↦ robot_body a.config
    | simple_token ↦ json.set (robot_body a.config) "data" (json.of_string (token a.config.params))
  ]

  unfoldable pub handle_authentication_req : Authenticator → Action env Unit
  unfolding authorize_body
  handle_authentication_req a = send_ws_message env (message env "authorize" (authorize_body a))

  unfoldable pub handle_authentication_complete : Authenticator → Action env Unit
  handle_authentication_complete a =
      modify
        (put_signaling (λ c. record c { authenticator = some (record a { authenticated = true }) }))

  unfoldable pub authenticated_by :
      (Authenticator → Action env Unit) → Option Authenticator → Action env Unit
  authenticated_by f none = crash
  authenticated_by f (some a) = f a

  -- A call through `authenticator_`.
  unfoldable pub with_authenticator : (Authenticator → Action env Unit) → Action env Unit
  unfolding authenticated_by ◌>>=◌
  with_authenticator f = do a ← gets (λ s. s.owner.signaling.authenticator); authenticated_by f a

  -- `IsAuthenticated`, which asks the authenticator.
  unfoldable pub is_authenticated : Action env Bool
  unfolding ◌>>=◌
  is_authenticated = do
    a ← gets (λ s. s.owner.signaling.authenticator)
    elim a [ none ↦ crash | some a ↦ pure a.authenticated ]

  -- `message && message.asInt() == 100`
  unfoldable pub authorized : json.Value → Action env Bool
  unfolding ◌>>=◌
  authorized body =
      if json.is_null body
      then pure false
      else (do n ← lift (json.as_int body); pure (n ==ℤ pos 100))

  unfoldable pub handle_authorization_message : String → json.Value → Action env Unit
  unfolding ◌>>=◌
  handle_authorization_message type body =
      if type == "authorize.req"
      then with_authenticator handle_authentication_req
      else if type == "authorize.res"
      then (do
        done ← authorized body
        when done (with_authenticator handle_authentication_complete))
      else with_authenticator (λ a. pure tt)

  unfoldable pub handle_ping_pong : json.Value → Action env Unit
  handle_ping_pong v = send_ws_message env (json.set v "type" (json.of_string "ping.pong"))

  unfoldable pub handle_prepare_connection : json.Value → Action env Unit
  unfolding ◌>>=◌
  handle_prepare_connection body = do
    v ← lift (json.get body "rtcConnectionId")
    id ← lift (json.as_string v)
    modify (put_signaling (λ c. record c { rtc_connection_id = id }))

  -- A call through `mosaic_connector_`.
  unfoldable pub through_connector : Action env Unit → Action env Unit
  unfolding ◌>>=◌
  through_connector m = do has ← gets (λ s. s.owner.signaling.has_connector); deref has m

  unfoldable pub resolved_offer : Option rtc.Sdp → Action env Unit
  unfolding through_connector
  resolved_offer none = pure tt
  resolved_offer (some sdp) = through_connector (handle_sdp_offer env sdp)

  unfoldable pub handle_send_sdp_offer : json.Value → Action env Unit
  unfolding ◌>>=◌
  handle_send_sdp_offer body = do
    offer ← lift (json.get body "sdpOffer")
    when (not (json.is_null offer)) (do
      text ← lift (json.as_string offer)
      resolved_offer (rtc.create_session_description text))

  -- `ResolveIceCandidate`; the text is read before the tests, by the line that logs it.
  unfoldable pub resolve_ice_candidate : json.Value → Action env (Option rtc.Candidate)
  unfolding ◌>>=◌
  resolve_ice_candidate v = do
    candidate ← lift (json.get v "candidate")
    text ← lift (json.as_string candidate)
    if json.is_null candidate then pure none else do
      mid ← lift (json.get v "sdpMid")
      if json.is_null mid then pure none else do
        index ← lift (json.get v "sdpMLineIndex")
        if json.is_null index then pure none else do
          sdp_mid ← lift (json.as_string mid)
          sdp_mline_index ← lift (json.as_int index)
          pure (rtc.create_ice_candidate sdp_mid sdp_mline_index text)

  unfoldable pub resolved_candidate : Option rtc.Candidate → Action env Unit
  unfolding through_connector
  resolved_candidate none = pure tt
  resolved_candidate (some c) = through_connector (handle_ice_candidate_from_signaling env c)

  unfoldable pub handle_exchange_ice_candidate : json.Value → Action env Unit
  unfolding ◌>>=◌
  handle_exchange_ice_candidate body = do
    v ← lift (json.get body "iceCandidate")
    when (not (json.is_null v))
        (do candidate ← resolve_ice_candidate v; resolved_candidate candidate)

  unfoldable pub handle_close_connection : Action env Unit
  unfolding through_connector
  handle_close_connection = through_connector (close_connection env)

  -- The chain of tests on the type.
  unfoldable pub dispatch : String → json.Value → Action env Unit
  unfolding ◌>>=◌
  dispatch type v =
      if type == "signaling.send_sdp_offer"
      then (do body ← lift (json.get v "data"); handle_send_sdp_offer body)
      else if type == "signaling.prepare_connection"
      then (do body ← lift (json.get v "data"); handle_prepare_connection body)
      else if type == "signaling.exchange_ice_candidate"
      then (do body ← lift (json.get v "data"); handle_exchange_ice_candidate body)
      else if type == "signaling.close_peer_connection"
      then handle_close_connection
      else if starts_with type "authorize"
      then (do body ← lift (json.get v "data"); handle_authorization_message type body)
      else if type == "ping.ping"
      then handle_ping_pong v
      else pure tt

  unfoldable pub on_message : json.Value → Action env Unit
  unfolding ◌>>=◌
  on_message v = do
    t ← lift (json.get v "type")
    when (not (json.is_null t)) (do type ← lift (json.as_string t); dispatch type v)

  unfoldable pub parsed : Option json.Value → Action env Unit
  parsed none = pure tt
  parsed (some v) = on_message v

  unfoldable pub on_ws_message : String → Action env Unit
  unfolding parsed
  on_ws_message msg = parsed (json.parse msg)

  unfoldable pub set_connected : Bool → Action env Unit
  set_connected b = modify (put_signaling (λ c. record c { is_connected = b }))

  -- The lambda of `setOnConnected`: the state that was set while offline is sent now.
  unfoldable pub on_connected : Action env Unit
  unfolding set_connected ◌>>=◌
  on_connected = do
    set_connected true
    latest ← gets (λ s. s.owner.signaling.latest_state)
    when (not (latest ==ℤ negsuc 0)) (send_state env latest)

  unfoldable pub callbacks : Callbacks (Core env)
  callbacks = record {
    on_connected = some on_connected;
    on_disconnected = some (set_connected false);
    on_message = some on_ws_message;
    on_error = some (λ e. set_connected false);
  }

  -- `Start`, which the factory calls once.
  unfoldable pub start : String → Task → Action env Unit
  unfolding ◌>>=◌
  start ws_uri dial = do
    modify (put_signaling (λ c. record c { has_ws_client = true }))
    set_ws (λ _. new_ws)
    connect net callbacks ws_uri dial

  unfoldable pub stop : Action env Unit
  unfolding set_connected ◌>>=◌
  stop = do
    client ← gets (λ s. s.owner.signaling)
    when client.is_connected
        (do deref client.has_ws_client (disconnect net callbacks); set_connected false)
