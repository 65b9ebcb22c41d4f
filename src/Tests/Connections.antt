-- ===== src/Tests/Connections.antt =====
-- The theorems on the connection, at concrete systems.
use mosaic_core.Base.{◌≡◌, refl, true, false, [], ◌∷◌, arith, none, String, List}
use mosaic_core.Exec.{ok}
use mosaic_core.Env.{IceServer, Env, close, create_peer_connection, set_remote_description}
use mosaic_core.System.{System, State, rtc_connected, rtc_connecting, rtc_failed, ready_to_connect}
use mosaic_core.WebSocket.{completed, text_message}
use mosaic_core.StateManager.{state_of}
use mosaic_core.StateManager.Report.{Linked}
use mosaic_core.Connector
use mosaic_core.Events.{
  Event, message, socket_closed, reconnects, broadcast, connection_changed, run,
}
use mosaic_core.Events.Dead.{NoConnect, run-dead}
use mosaic_core.Events.Owned.{Owned, run-Owned}
use mosaic_core.Factory.{shutting_down}
use mosaic_core.Factory.Shutdown.{Untouched, shutting_down-Untouched}
use mosaic_core.PeerConnection.{close_peer_connection, handle_sdp_offer}
use mosaic_core.PeerConnection.Close.{close_active}
use mosaic_core.PeerConnection.Offer.{AllGiven, offer_accepted}
use mosaic_core.PeerConnection.Loop.{Every}
use mosaic_core.PeerConnection.Replace.{offer_replaces}
use mosaic_core.PeerConnection.Contract.{repository_closing}
use mosaic_core.Tests.Setup.{json, rtc, taking, cameras, surroundings, webrtc_config, camera, at}

abbrev up : Env
up = surroundings taking cameras

abbrev system : State → System up
system st = at taking cameras st true camera

abbrev closed_of : State → System up
closed_of st = (close_peer_connection up (system st)).1

linked : (st : State) → Linked (system st)
linked st = record { client = λ e. refl; ws_client = λ e. refl }

close_active_example :
    ((close_peer_connection up (system rtc_connected)).0 ≡ ok tt)
    × (state_of up (closed_of rtc_connected) ≡ ready_to_connect)
    × ((closed_of rtc_connected).owner.peer.has_peer_connection ≡ false)
    × ((closed_of rtc_connected).owner.peer.calls ≡ close ∷ [])
    × Every (λ t. t.source ≡ none) (closed_of rtc_connected).owner.connector.media_track_handlers
    × Every
        (λ h. h.dc_interface ≡ none)
        (closed_of rtc_connected).owner.connector.data_channel_handlers
close_active_example =
    close_active up (repository_closing json rtc taking String String true) (system rtc_connected)
      (λ sent f. refl) (linked rtc_connected) refl

abbrev idle : State → System up
idle st = at taking cameras st false camera

abbrev offered : System up
offered = (handle_sdp_offer up "offer" (idle ready_to_connect)).1

offer_accepted_example :
    (servers : List IceServer) × AllGiven webrtc_config.ice_servers servers
    × ((handle_sdp_offer up "offer" (idle ready_to_connect)).0 ≡ ok tt)
    × (offered.owner.peer.has_peer_connection ≡ true)
    × (state_of up offered ≡ rtc_connecting)
    × (offered.owner.peer.calls
        ≡ set_remote_description "offer" ∷ create_peer_connection servers ∷ [])
    × (offered.owner.connector ≡ (idle ready_to_connect).owner.connector)
offer_accepted_example =
    offer_accepted up (idle ready_to_connect) "offer" (λ sent f. refl)
      (record { client = λ e. refl; ws_client = λ e. refl }) refl refl refl

abbrev events : List (Event up)
events =
    message (text_message completed "close")
    ∷ socket_closed
    ∷ reconnects completed
    ∷ broadcast
    ∷ connection_changed Connector.failed
    ∷ []

no_connect : NoConnect events
no_connect = (ground arith, (ground arith, (ground arith, (ground arith, (ground arith, tt)))))

run-dead_example : state_of up (run up events (system rtc_failed)) ≡ rtc_failed
run-dead_example = run-dead up rtc_failed refl events (system rtc_failed) no_connect refl

-- WebRTC reports that it has connected, and later that it has failed.
abbrev more_events : List (Event up)
more_events = connection_changed Connector.connected ∷ events

run-Owned_example :
    Owned
      (state_of up (run up more_events (system rtc_connecting)))
      (run up more_events (system rtc_connecting)).owner.peer.has_peer_connection
run-Owned_example =
    run-Owned up (repository_closing json rtc taking String String true) more_events
      (system rtc_connecting) (λ e. refl)

shutting_down-Untouched_example :
    Untouched up (system rtc_connected) (shutting_down up (system rtc_connected)).1.owner
shutting_down-Untouched_example = shutting_down-Untouched up (system rtc_connected)

abbrev replaced : System up
replaced = (handle_sdp_offer up "offer" (system rtc_connected)).1

offer_replaces_example :
    (servers : List IceServer) × AllGiven webrtc_config.ice_servers servers
    × ((handle_sdp_offer up "offer" (system rtc_connected)).0 ≡ ok tt)
    × (replaced.owner.peer.has_peer_connection ≡ true)
    × (state_of up replaced ≡ rtc_connecting)
    × (replaced.owner.peer.calls
        ≡ set_remote_description "offer" ∷ create_peer_connection servers ∷ close ∷ [])
offer_replaces_example =
    offer_replaces up (repository_closing json rtc taking String String true) (system rtc_connected)
      "offer" (λ sent f. refl) (linked rtc_connected) refl refl refl
