-- ===== src/Factory/Lifetime.antt =====
-- The destructor of `MosaicConnector` in src/core/mosaic_connector.cpp, beside an explicit call of
-- `ShuttingDown`.
use mosaic_core.Base.{◌≡◌, ◌≢◌, ◌∙◌, ap, true, false, arith}
use mosaic_core.Base.Int.{pos}
use mosaic_core.Exec.{Outcome, ok, fault, catch, handle, crash}
use mosaic_core.Env.{Env}
use mosaic_core.System.{PeerConnectionManager, MosaicConnector, Action, System, disconnected}
use mosaic_core.WebSocket.{completed, disconnect, text}
use mosaic_core.Signaling.{status_message}
use mosaic_core.Signaling.Receive.{stop, callbacks, set_connected}
use mosaic_core.StateManager.{set_state, state_to_int}
use mosaic_core.StateManager.Report.{set_state-SetTo, set_state_latest}
use mosaic_core.PeerConnection.{close_peer_connection, destroy}
use mosaic_core.Factory.{shutting_down, take_down, stop_signaling_server}

module _ (env : Env) where
  -- What is thrown in a destructor ends the process.
  unfoldable pub destroy_connector : Action env Unit
  unfolding shutting_down
  destroy_connector = catch (shutting_down env) (λ e. crash)

  -- Shut down for good: nothing is connected, held or reported to.
  record Down (s : System env) : Type 0 where
    state : s.owner.states.state ≡ disconnected
    latest_state : s.owner.signaling.latest_state ≡ pos 5
    is_connected : s.owner.signaling.is_connected ≡ false
    stopped : s.owner.peer.has_signaling_client ≡ false
    reporter : s.owner.states.has_signaling_client ≡ true
    manager : s.owner.connector.has_manager ≡ true
    connection : s.owner.peer.has_peer_connection ≡ false
    observer : s.owner.peer.has_observer ≡ false
    factory : s.owner.peer.has_factory ≡ false
    threads : s.owner.peer.has_threads ≡ false

  -- What is down stays as it is.
  again : (s : System env) → Down s → shutting_down env s ≡ (ok tt, s)
  unfolding shutting_down take_down stop_signaling_server set_state close_peer_connection destroy
      state_to_int
  again s d = ground arith

  -- DISCONNECTED is recorded, and the state manager and the manager of the connection still hold the
  -- signaling client.
  record Told (s : System env) : Type 0 where
    state : s.owner.states.state ≡ disconnected
    latest_state : s.owner.signaling.latest_state ≡ pos 5
    reporter : s.owner.states.has_signaling_client ≡ true
    client : s.owner.peer.has_signaling_client ≡ true
    manager : s.owner.connector.has_manager ≡ true

  stopped_false :
      (s : System env)
      → (stop env s).0 ≡ ok tt
      → (stop env s).1.owner.signaling.is_connected ≡ false
  unfolding stop disconnect set_connected
  stopped_false s h = ground arith

  stop-Told : (s : System env) → Told s → Told (stop env s).1
  unfolding stop disconnect set_connected callbacks
  stop-Told s t = ground arith

  take_down-Down :
      (s : System env) → Told s → (take_down env s).0 ≡ ok tt → Down (take_down env s).1
  unfolding take_down stop_signaling_server close_peer_connection destroy
  take_down-Down s t h = ground (arith, stopped_false s, stop-Told s t)

  set_state-Told :
      (s : System env)
      → s.owner.states.has_signaling_client ≡ true
      → s.owner.peer.has_signaling_client ≡ true
      → s.owner.connector.has_manager ≡ true
      → Told (set_state env disconnected s).1
  unfolding state_to_int
  set_state-Told s r p m =
      let e = set_state-SetTo env disconnected s in
      record {
        state = e.state;
        latest_state = set_state_latest env disconnected s r;
        reporter = e.reporter ∙ r;
        client = ap (λ (q : PeerConnectionManager env). q.has_signaling_client) e.peer ∙ p;
        manager = ap (λ (c : MosaicConnector env). c.has_manager) e.connector ∙ m;
      }

  shutting_down-Down :
      (s : System env)
      → s.owner.states.has_signaling_client ≡ true
      → s.owner.peer.has_signaling_client ≡ true
      → s.owner.connector.has_manager ≡ true
      → (shutting_down env s).0 ≡ ok tt
      → Down (shutting_down env s).1
  unfolding shutting_down
  shutting_down-Down s r p m h =
      let s₁ = (set_state env disconnected s).1 in
      ground (arith, take_down-Down s₁ (set_state-Told s r p m))

  -- When `ShuttingDown` of a system that is tied together has returned, a second call, and the
  -- destructor of the connector, which calls it too, return and change nothing: nothing is sent twice,
  -- and no null pointer is called.
  pub shutting_down_twice :
      (s : System env)
      → s.owner.states.has_signaling_client ≡ true
      → s.owner.peer.has_signaling_client ≡ true
      → s.owner.connector.has_manager ≡ true
      → (shutting_down env s).0 ≡ ok tt
      → let s' = (shutting_down env s).1 in
        (shutting_down env s' ≡ (ok tt, s')) × (destroy_connector s' ≡ (ok tt, s'))
  unfolding destroy_connector
  shutting_down_twice s r p m h =
      let same = again (shutting_down env s).1 (shutting_down-Down s r p m h) in
      (same, ap (λ (e : Outcome Unit × System env). handle e.0 (λ _. crash) e.1) same)

  -- With a client and a socket that are connected, a network that does not take the frame that
  -- reports DISCONNECTED makes the destructor of the connector end the process.
  refused_report_ends :
      (s : System env)
      → s.owner.states.has_signaling_client ≡ true
      → s.owner.signaling.is_connected ≡ true
      → s.owner.signaling.has_ws_client ≡ true
      → s.ws.connected ≡ true
      → s.ws.has_client ≡ true
      → env.net.send_result s.ws.sent (text (env.json.write (status_message env (pos 5))))
        ≢ completed
      → (destroy_connector s).0 ≡ fault
  unfolding destroy_connector catch shutting_down set_state state_to_int
  refused_report_ends s r i w c k h = ground arith
