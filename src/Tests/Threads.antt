-- ===== src/Tests/Threads.antt =====
-- Runs of events and of threads at concrete systems.
use mosaic_core.Base.{◌≡◌, ◌≢◌, refl, true, List, [], ◌∷◌, ◌++◌, some}
use mosaic_core.Base.Int.{pos}
use mosaic_core.Env.{Env}
use mosaic_core.System.{System, rtc_connected}
use mosaic_core.WebSocket.{completed, text, handle_close, text_message}
use mosaic_core.Signaling.Receive.{callbacks, set_connected}
use mosaic_core.Signaling.{status_message}
use mosaic_core.StateManager.{state_of}
use mosaic_core.Factory.{shutting_down}
use mosaic_core.Factory.Comeback.{reconnects_after_shutdown}
use mosaic_core.Connector
use mosaic_core.Events.{
  Event, message, socket_closed, reconnects, broadcast, connection_changed, step, run,
}
use mosaic_core.Events.Machine.{Walks}
use mosaic_core.Events.Machine.Simulation.{run-Walks}
use mosaic_core.Python.Gil.{
  Thread, python, network, worker, signaling, pool, Instruction, Threads, Reach, here, next, calls,
  calls_of, destroy_threads, connect_internal_call, connected_task, python_message,
}
use mosaic_core.Log.{info}
use mosaic_core.Python.Gil.Connecting.{create_hangs}
use mosaic_core.Tests.Setup.{taking, cameras, surroundings, camera, at, json}

abbrev up : Env
up = surroundings taking cameras

abbrev connected_system : System up
connected_system = at taking cameras rtc_connected true camera

-- The server closes the connection, and the negotiation goes on.
abbrev closing : List (Event up)
closing =
    broadcast
    ∷ message (text_message completed "close")
    ∷ socket_closed
    ∷ connection_changed Connector.connected
    ∷ []

run-Walks_example :
    Walks closing rtc_connected true
      (state_of up (run up closing connected_system))
      (run up closing connected_system).owner.peer.has_peer_connection
run-Walks_example = run-Walks up closing connected_system

-- The socket is closed, and one thread waits.
abbrev interrupted : System up
interrupted = (step up socket_closed connected_system).1

reconnects_after_shutdown_example :
    let s' = (step up (reconnects completed) (shutting_down up interrupted).1).1 in
    (s'.ws.connected ≡ true)
    × (s'.owner.signaling.is_connected ≡ true)
    × (s'.ws.sent ≡ text (json.write (status_message up (pos 5))) ∷ interrupted.ws.sent)
unfolding step handle_close callbacks set_connected
reconnects_after_shutdown_example =
    reconnects_after_shutdown up interrupted (λ sent f. refl)
      (record {
        connected = refl;
        is_connected = refl;
        has_ws_client = refl;
        reporter = refl;
        has_manager = refl;
      })

-- `shutting_down` is called while the network thread is at a message.
abbrev at_work : List Instruction → Thread → List Instruction
at_work job python = calls_of 4 ++ destroy_threads
at_work job network = job
at_work job worker = []
at_work job signaling = []
at_work job pool = []

abbrev begun : List Instruction → Threads
begun job = record { holder = some python; left = at_work job }

-- Python goes up to the stop of the network thread, which has converted its message.
abbrev stuck : (t : Threads) × Reach (begun python_message) t
stuck = (
  _,
  next
      (next
        (next (next (next here (calls python _ refl)) (calls python _ refl)) (calls python _ refl))
        (calls python _ refl))
      (calls network _ refl),
)

-- `create` is called, and the socket opens while it waits.
abbrev dialing : Thread → List Instruction
dialing python = calls_of 3 ++ (connect_internal_call ++ [])
dialing pool = connected_task info
dialing _ = []

abbrev dialed : (t : Threads) × Reach (record { holder = some python; left = dialing }) t
dialed = (
  _,
  next
      (next
        (next
          (next (next (next here (calls python _ refl)) (calls python _ refl))
            (calls python _ refl))
          (calls python _ refl))
        (calls python _ refl))
      (calls pool _ refl),
)

create_hangs_example : (dialed.0.left python ≢ []) × (dialed.0.left pool ≢ [])
create_hangs_example = create_hangs info 3 0 [] refl refl refl refl dialed.1
