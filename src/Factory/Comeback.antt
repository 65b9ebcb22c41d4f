-- ===== src/Factory/Comeback.antt =====
-- `ShuttingDown` of src/core/mosaic_connector.cpp, and the thread of
-- src/signaling/websocket_client_impl.cpp that reconnects.
use mosaic_core.Base.{◌≡◌, true, false, ◌∷◌, arith}
use mosaic_core.Base.Int.{pos}
use mosaic_core.Env.{Env}
use mosaic_core.System.{System}
use mosaic_core.WebSocket.{completed, text, connect_internal, reconnect}
use mosaic_core.Signaling.{send_state, status_message}
use mosaic_core.Signaling.Receive.{callbacks, on_connected, stop}
use mosaic_core.StateManager.{set_state, state_to_int}
use mosaic_core.StateManager.Report.{Reliable}
use mosaic_core.PeerConnection.{close_peer_connection, destroy}
use mosaic_core.Factory.{shutting_down, take_down, stop_signaling_server}
use mosaic_core.Events.{reconnects, step}

-- The connection to the server is lost, and the system stands otherwise.
pub record Interrupted {env : Env} (s : System env) : Type 0 where
  pub connected : s.ws.connected ≡ false
  pub is_connected : s.owner.signaling.is_connected ≡ false
  pub has_ws_client : s.owner.signaling.has_ws_client ≡ true
  pub reporter : s.owner.states.has_signaling_client ≡ true
  pub has_manager : s.owner.connector.has_manager ≡ true

-- What shutting down leaves of it.
record Silenced {env : Env} (s s' : System env) : Type 0 where
  connected : s'.ws.connected ≡ false
  sent : s'.ws.sent ≡ s.ws.sent
  is_connected : s'.owner.signaling.is_connected ≡ false
  has_ws_client : s'.owner.signaling.has_ws_client ≡ true
  latest_state : s'.owner.signaling.latest_state ≡ pos 5

module _ (env : Env) where
  shutting_down-Silenced : (s : System env) → Interrupted s → Silenced s (shutting_down env s).1
  unfolding shutting_down take_down stop_signaling_server stop set_state close_peer_connection
      destroy state_to_int
  shutting_down-Silenced s i = ground arith

  comes_back :
      (s s' : System env)
      → Reliable env.net
      → Silenced s s'
      → ((step env (reconnects completed) s').1.ws.connected ≡ true)
        × ((step env (reconnects completed) s').1.owner.signaling.is_connected ≡ true)
        × ((step env (reconnects completed) s').1.ws.sent
            ≡ text (env.json.write (status_message env (pos 5))) ∷ s.ws.sent)
  unfolding step reconnect connect_internal callbacks on_connected send_state
  comes_back s s' r i =
      ground (arith, r s'.ws.sent (text (env.json.write (status_message env (pos 5)))))

  -- A thread that waits to reconnect when the connector is shut down, and then succeeds, opens the
  -- connection to the server again, and reports DISCONNECTED over it, on a network that takes every
  -- frame.
  pub reconnects_after_shutdown :
      (s : System env)
      → Reliable env.net
      → Interrupted s
      → let s' = (step env (reconnects completed) (shutting_down env s).1).1 in
        (s'.ws.connected ≡ true)
        × (s'.owner.signaling.is_connected ≡ true)
        × (s'.ws.sent ≡ text (env.json.write (status_message env (pos 5))) ∷ s.ws.sent)
  reconnects_after_shutdown s r i =
      comes_back s (shutting_down env s).1 r (shutting_down-Silenced s i)
