-- ===== src/Tests/Lifetimes.antt =====
-- The destructors, and the handlers of incomplete Python classes, at concrete systems.
use mosaic_core.Base.{◌≡◌, refl, String, ◌<>◌, true, Option, none, some, []}
use mosaic_core.Exec.{Exec, ok, pure}
use mosaic_core.Env.{Env}
use mosaic_core.System.{System, rtc_connected, ready_to_connect}
use mosaic_core.StateManager.{set_state, state_of}
use mosaic_core.WebSocket.{disconnect}
use mosaic_core.Signaling.Receive.{stop, callbacks, set_connected}
use mosaic_core.MediaTrack.{Track}
use mosaic_core.PeerConnection.{close_peer_connection, destroy}
use mosaic_core.Factory.{shutting_down, take_down, stop_signaling_server}
use mosaic_core.Factory.Lifetime.{destroy_connector, shutting_down_twice}
use mosaic_core.Factory.Owners.{
  signaling_client, Pointers, is_held, Reach, created, next, opens, shuts_down, releases,
}
use mosaic_core.Factory.Owners.Cycle.{never_destroyed}
use mosaic_core.Python.Tracks.Missing.{stopless, stopless_close}
use mosaic_core.Tests.Setup.{taking, cameras, surroundings, camera, recorder, at}

abbrev up : Env
up = surroundings taking cameras

abbrev connected_system : System up
connected_system = at taking cameras rtc_connected true camera

returned : (shutting_down up connected_system).0 ≡ ok tt
unfolding shutting_down take_down stop_signaling_server stop disconnect callbacks set_connected
    set_state close_peer_connection destroy
returned = refl

abbrev taken_down : System up
taken_down = (shutting_down up connected_system).1

shutting_down_twice_example :
    (shutting_down up taken_down ≡ (ok tt, taken_down))
    × (destroy_connector up taken_down ≡ (ok tt, taken_down))
shutting_down_twice_example = shutting_down_twice up connected_system refl refl refl returned

-- The program shuts the connector down and releases it, in the middle of a connection.
abbrev let_go : (s : Pointers) × Reach s
let_go = (_, next (next (next created opens) shuts_down) releases)

never_destroyed_example : is_held signaling_client let_go.0 ≡ true
never_destroyed_example = never_destroyed let_go.0 signaling_client let_go.1 refl

-- What pybind11 throws for a method that no class overrides.
abbrev raised : String → String
raised name = "Tried to call pure virtual function " <> name

abbrev python_track : Track Unit String String
python_track = record { track_name = "front"; source = none; recorder = recorder; extra = tt }

abbrev method : Option (Exec (Track Unit String String) Unit)
method = some (pure tt)

abbrev no_stop : Env
no_stop = stopless raised method up

abbrev tracked : System no_stop
tracked = at taking no_stop.tracks rtc_connected true python_track

stopless_close_example :
    let s' = (close_peer_connection no_stop tracked).1 in
    (state_of no_stop s' ≡ ready_to_connect)
    × (s'.owner.peer ≡ tracked.owner.peer)
    × (s'.owner.connector ≡ tracked.owner.connector)
stopless_close_example =
    stopless_close raised method up tracked "front" python_track [] (λ sent f. refl)
      (record { client = λ e. refl; ws_client = λ e. refl }) refl refl
