-- ===== src/Events/Machine/Simulation.antt =====
-- Every event of src/core and src/signaling walks through the state machine.
use mosaic_core.Base.{ap, ◌≡◌, refl, Bool, true, false, List, [], ◌∷◌, arith}
use mosaic_core.Env.{Env}
use mosaic_core.System.{System, rtc_connected}
use mosaic_core.StateManager.{state_of}
use mosaic_core.PeerConnection.{on_connection_connected}
use mosaic_core.Connector.{connected, on_connection_change}
use mosaic_core.Events.{Event, connection_changed, step, run}
use mosaic_core.Events.Keeps.{Kept-step}
use mosaic_core.Events.Messages.{Kept}
use mosaic_core.Events.Messages.Handled.{Kept-any_message}
use mosaic_core.Auth.{Authenticator}
use mosaic_core.Exec.{modify}
use mosaic_core.Signaling.Receive.{handle_authentication_complete}
use mosaic_core.Base.{Option}
use mosaic_core.System.{State}
use mosaic_core.StateManager.Report.{set_state-SetTo}
use mosaic_core.Events.Machine.{Moves, here, Walk, Walks, stay, go, reports_connection}
use mosaic_core.Events.Machine.Paths.{
  Reached-handle_sdp_offer, Reached-close_peer_connection, set_state_has,
}

reports_connection-eq :
    {env : Env} (e : Event env) → reports_connection e ≡ true → e ≡ connection_changed connected
reports_connection-eq e h = ground arith

module _ (env : Env) where
  abbrev has : System env → Bool
  has s = s.owner.peer.has_peer_connection

  step_connected-Walk :
      (s : System env)
      → Walk {env = env}
          (connection_changed connected)
          (state_of env s)
          (has s)
          (state_of env (step env (connection_changed connected) s).1)
          (has (step env (connection_changed connected) s).1)
  unfolding step on_connection_change on_connection_connected
  step_connected-Walk s = (
    (set_state-SetTo env rtc_connected s).state,
    set_state_has env (state_of env s) (has s) rtc_connected s,
  )

  -- The state of the machine, which the authenticator is no part of.
  abbrev From : State → Bool → Option Authenticator → State → Bool → Type 0
  From n b a = Moves n b

  From-complete :
      (n : State) (b : Bool) (a : Authenticator)
      → Kept env (From n b) (handle_authentication_complete env a)
  unfolding handle_authentication_complete modify
  From-complete n b a = record { at = λ s h. h }

  step-Walk :
      (e : Event env) (s : System env) (b : Bool)
      → reports_connection e ≡ b
      → Walk e (state_of env s) (has s) (state_of env (step env e s).1) (has (step env e s).1)
  unfolding step on_connection_change on_connection_connected
  step-Walk e s false r = rw r (
      (Kept-step env (From (state_of env s) (has s)) (Reached-handle_sdp_offer env _ _)
          (Reached-close_peer_connection env _ _) e
          (λ m _.
            Kept-any_message env (From (state_of env s) (has s)) (Reached-handle_sdp_offer env _ _)
              (Reached-close_peer_connection env _ _) (From-complete (state_of env s) (has s)) m)
          (λ up. cc (ap reports_connection up))).at
        s here)
  step-Walk e s true r = rw (reports_connection-eq e r) (step_connected-Walk s)

  -- Whatever the server sends, the network does and WebRTC reports, in whatever order and with whatever
  -- outcomes, each event walks along the moves of Events/Machine, and a report of a connection sets
  -- RTC_CONNECTED.
  pub run-Walks :
      (es : List (Event env)) (s : System env)
      → Walks es (state_of env s) (has s) (state_of env (run env es s)) (has (run env es s))
  unfolding run
  run-Walks [] s = stay
  run-Walks (e ∷ es) s =
      go (step-Walk e s (reports_connection e) refl) (run-Walks es (step env e s).1)
