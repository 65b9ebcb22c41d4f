-- ===== src/Factory/Shutdown.antt =====
-- `ShuttingDown` of src/core/mosaic_connector.cpp: the state is set to DISCONNECTED before the
-- connection is closed.
use mosaic_core.Base.{◌≡◌, ap, Bool, false, arith}
use mosaic_core.Exec.{ok, modify}
use mosaic_core.Exec.Keeps.{Keeps, keeps_rules}
use mosaic_core.Env.{Env}
use mosaic_core.System.{Action, System, Core, PeerConnectionManager, disconnected}
use mosaic_core.WebSocket.{disconnect}
use mosaic_core.WebSocket.Keeps.{Keeps-disconnect}
use mosaic_core.Signaling.Receive.{stop, set_connected, callbacks}
use mosaic_core.StateManager.{set_state}
use mosaic_core.StateManager.Report.{set_state-SetTo}
use mosaic_core.PeerConnection.{close_peer_connection, destroy}
use mosaic_core.Factory.{stop_signaling_server, take_down, shutting_down}

module _ (env : Env) (s₀ : System env) where
  -- DISCONNECTED, with the handlers and the calls of WebRTC as they were.
  pub record Untouched (c : Core env) : Type 0 where
    pub state : c.states.state ≡ disconnected
    pub connector : c.connector ≡ s₀.owner.connector
    pub calls : c.peer.calls ≡ s₀.owner.peer.calls

  abbrev Leaves : {A : Type 0} → Action env A → Type 0
  Leaves m = Keeps (λ (s : System env). Untouched s.owner) m

  Leaves-set_connected : (b : Bool) → Leaves (set_connected env b)
  unfolding set_connected modify
  Leaves-set_connected b = record {
    at = λ s u. record { state = u.state; connector = u.connector; calls = u.calls };
  }

  Leaves-disconnect : Leaves (disconnect env.net (callbacks env))
  unfolding callbacks
  Leaves-disconnect =
      Keeps-disconnect Untouched env.net (callbacks env) (Leaves-set_connected false)

  Leaves-stop : Leaves (stop env)
  unfolding stop
  Leaves-stop = search (keeps_rules, Leaves-disconnect, Leaves-set_connected) depth 8

  Leaves-stop_signaling_server : Leaves (stop_signaling_server env)
  unfolding stop_signaling_server modify
  Leaves-stop_signaling_server = record { at = λ s u. ground (arith, Leaves-stop.at s u) }

  Leaves-close_peer_connection : Leaves (close_peer_connection env)
  unfolding close_peer_connection
  Leaves-close_peer_connection = record { at = λ s u. ground arith }

  Leaves-destroy : Leaves (destroy env)
  unfolding destroy modify
  Leaves-destroy = record {
    at = λ s u. record { state = u.state; connector = u.connector; calls = u.calls };
  }

  Leaves-take_down : Leaves (take_down env)
  unfolding take_down
  Leaves-take_down =
      search
        (keeps_rules, Leaves-stop_signaling_server, Leaves-close_peer_connection, Leaves-destroy)
        depth 8

  Untouched-set_state : Untouched (set_state env disconnected s₀).1.owner
  Untouched-set_state =
      let e = set_state-SetTo env disconnected s₀ in
      record {
        state = e.state;
        connector = e.connector;
        calls = ap (λ (p : PeerConnectionManager env). p.calls) e.peer;
      }

  -- `ShuttingDown`, from any state and on any outcome, ends in DISCONNECTED with every handler as it
  -- was and without a call of WebRTC: no media track, no data channel and no peer connection is
  -- closed.
  pub shutting_down-Untouched : Untouched (shutting_down env s₀).1.owner
  unfolding shutting_down
  shutting_down-Untouched =
      ground (arith, Untouched-set_state, Leaves-take_down.at (set_state env disconnected s₀).1)

-- When it returns, the peer connection has been dropped all the same.
shutting_down_drops :
    (env : Env) (s : System env)
    → (shutting_down env s).0 ≡ ok tt
    → ((shutting_down env s).1.owner.peer.has_peer_connection ≡ false)
      × ((shutting_down env s).1.owner.peer.has_factory ≡ false)
unfolding shutting_down take_down destroy
shutting_down_drops env s h = ground arith
