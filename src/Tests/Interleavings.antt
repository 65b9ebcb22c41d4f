-- ===== src/Tests/Interleavings.antt =====
-- The theorems on two threads in `ClosePeerConnection`, at concrete systems.
use mosaic_core.Base.{◌≡◌, refl, true, false, [], ◌∷◌, arith, String, List, Bool, ◌≤◌}
use mosaic_core.Exec.{ok}
use mosaic_core.Env.{Env, close}
use mosaic_core.System.{
  System, State, rtc_connected, rtc_connecting, rtc_disconnecting, ready_to_connect,
}
use mosaic_core.StateManager.{state_of}
use mosaic_core.StateManager.Report.{Linked}
use mosaic_core.PeerConnection.{close_peer_connection}
use mosaic_core.PeerConnection.Contract.{repository_closing}
use mosaic_core.PeerConnection.Points.{
  Point, tests_connected, closes_handlers, reports_connected, done, alone, together,
}
use mosaic_core.PeerConnection.Points.Late.{late_close}
use mosaic_core.PeerConnection.Points.Races.{missed_close}
use mosaic_core.Tests.Setup.{json, rtc, taking, cameras, surroundings, camera, at}

abbrev up : Env
up = surroundings taking cameras

abbrev system : State → System up
system st = at taking cameras st true camera

linked : (st : State) → Linked (system st)
linked st = record { client = λ e. refl; ws_client = λ e. refl }

missed_close_example :
    let r =
      together up
        (true ∷ false ∷ true ∷ [])
        tests_connected
        reports_connected
        (system rtc_connecting) in
    (r.0 ≡ ok (done, done))
    × (state_of up r.1 ≡ rtc_connected)
    × (r.1.owner.peer ≡ (system rtc_connecting).owner.peer)
    × (r.1.owner.connector ≡ (system rtc_connecting).owner.connector)
missed_close_example =
    missed_close up (system rtc_connecting) (λ sent f. refl) (linked rtc_connecting) refl

-- The second call runs to its end between the first steps of the first.
abbrev turns_taken : List Bool
turns_taken = true ∷ false ∷ true ∷ false ∷ true ∷ true ∷ true ∷ []

enough : 5 ≤ mosaic_core.PeerConnection.Points.Late.turns turns_taken
enough = omega arith

late_close_example :
    let r = together up turns_taken closes_handlers tests_connected (system rtc_disconnecting) in
    (q : Point) × (r.0 ≡ ok (done, q))
    × (state_of up r.1 ≡ ready_to_connect)
    × (r.1.owner.peer.has_peer_connection ≡ false)
    × (r.1.owner.peer.calls ≡ close ∷ [])
late_close_example =
    late_close up (repository_closing json rtc taking String String true) (λ sent f. refl)
      turns_taken (system rtc_disconnecting) (linked rtc_disconnecting) refl enough
