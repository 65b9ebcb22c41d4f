-- ===== src/StateManager/Report.antt =====
-- What a change of the state does to the rest of the system (src/core/connector_state_manager.cpp).
use mosaic_core.Base.{◌≡◌, ◌≢◌, true, List, ◌∷◌, arith, ◌&&◌, if◌then◌else◌}
use mosaic_core.Exec.{ok, fault}
use mosaic_core.Env.{Env}
use mosaic_core.System.{System, State}
use mosaic_core.WebSocket.{Net, Frame, completed, text}
use mosaic_core.Signaling.{status_message}
use mosaic_core.StateManager.{set_state, state_of, state_to_int}

-- The network takes every frame.
abbrev pub Reliable : Net → Type 0
Reliable net = (sent : List Frame) (f : Frame) → net.send_result sent f ≡ completed

-- A client that counts as connected exists.
pub record Linked {env : Env} (s : System env) : Type 0 where
  pub client : s.ws.connected ≡ true → s.ws.has_client ≡ true
  pub ws_client : s.owner.signaling.is_connected ≡ true → s.owner.signaling.has_ws_client ≡ true

-- `s'` is `s` in another state: only the status was recorded, and perhaps sent.
pub record SetTo {env : Env} (n : State) (s s' : System env) : Type 0 where
  pub state : state_of env s' ≡ n
  pub peer : s'.owner.peer ≡ s.owner.peer
  pub connector : s'.owner.connector ≡ s.owner.connector
  pub connected : s'.ws.connected ≡ s.ws.connected
  pub has_client : s'.ws.has_client ≡ s.ws.has_client
  pub is_connected : s'.owner.signaling.is_connected ≡ s.owner.signaling.is_connected
  pub has_ws_client : s'.owner.signaling.has_ws_client ≡ s.owner.signaling.has_ws_client
  pub has_connector : s'.owner.signaling.has_connector ≡ s.owner.signaling.has_connector
  pub authenticator : s'.owner.signaling.authenticator ≡ s.owner.signaling.authenticator
  pub connection_id : s'.owner.signaling.rtc_connection_id ≡ s.owner.signaling.rtc_connection_id
  pub reporter : s'.owner.states.has_signaling_client ≡ s.owner.states.has_signaling_client

module _ (env : Env) (n : State) (s : System env) where
  pub set_state-SetTo : SetTo n s (set_state env n s).1
  unfolding set_state
  set_state-SetTo = ground arith

  pub set_state-Linked : Linked s → Linked (set_state env n s).1
  unfolding set_state
  set_state-Linked l = ground arith

  -- A change of the state never calls through a null pointer.
  pub set_state_no_fault : Linked s → (set_state env n s).0 ≢ fault
  unfolding set_state
  set_state_no_fault l = ground arith

  pub set_state_ok : Reliable env.net → Linked s → (set_state env n s).0 ≡ ok tt
  unfolding set_state
  set_state_ok r l =
      ground (arith, r s.sent (text (env.json.write (status_message env (state_to_int n)))))

  -- The state is kept for the next connection, whether or not it was sent.
  pub set_state_latest :
      s.owner.states.has_signaling_client ≡ true
      → (set_state env n s).1.owner.signaling.latest_state ≡ state_to_int n
  unfolding set_state
  set_state_latest h = ground arith

  -- With a signaling client, and a network that takes every frame, a change of the state sends one
  -- status message with the number of the new state if the client and the socket are connected, and
  -- nothing otherwise.
  pub set_state_sent :
      Reliable env.net
      → Linked s
      → s.owner.states.has_signaling_client ≡ true
      → (set_state env n s).1.sent ≡ (
          if s.owner.signaling.is_connected && s.ws.connected
          then text (env.json.write (status_message env (state_to_int n))) ∷ s.sent
          else s.sent)
  unfolding set_state
  set_state_sent r l h =
      ground (arith, r s.sent (text (env.json.write (status_message env (state_to_int n)))))
