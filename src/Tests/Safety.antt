-- ===== src/Tests/Safety.antt =====
-- The theorems on null pointers and on the camera's thread, at a system that the factory makes.
use mosaic_core.Base.{ℕ, String, ◌≡◌, ◌≢◌, refl, Bool, true, false, some, List, [], ◌∷◌, arith, leb}
use mosaic_core.Exec.{Outcome, ok, fault, pure, modify}
use mosaic_core.Env.{Env, set_remote_description}
use mosaic_core.System.{System, put_peer, put_signaling, rtc_connecting, rtc_connected}
use mosaic_core.WebSocket.{completed, failed, text, text_message}
use mosaic_core.PeerConnection.{close_peer_connection, after_create_sdp_answer}
use mosaic_core.Connector
use mosaic_core.Events.{
  Event, message, socket_closed, reconnects, broadcast, connection_changed, candidate_gathered,
  data_channel_opened, run,
}
use mosaic_core.Events.Wired.{Tame, Wired}
use mosaic_core.Events.Negotiation.{Sourcing, negotiate, negotiate_lem}
use mosaic_core.Signaling.{answer_message}
use mosaic_core.Auth.{no_auth}
use mosaic_core.Events.Unbroken.{NoneFaults}
use mosaic_core.Factory.{fresh, create}
use mosaic_core.Factory.Unauthenticated.{created_authenticated}
use mosaic_core.Factory.Tied.{
  Registration, channel_handler, track_handler, register_all, created_run_fine,
}
use mosaic_core.MediaTrack.{Track, create_video_track_source, get_stop_flag}
use mosaic_core.MediaTrack.Camera
use mosaic_core.MediaTrack.Camera.{Capture}
use mosaic_core.MediaTrack.Thread.{thread, thread_ends}
use mosaic_core.DataChannel
use mosaic_core.DataChannel.{set_data_channel_interface, register_data_channel_observer}
use mosaic_core.PeerConnection.Contract.{close_data_channel_lem, close_camera, repository_closing}
use mosaic_core.PeerConnection.Close.{close_active}
use mosaic_core.Auth.{create_authenticator}
use mosaic_core.WebSocket.{connect, connect_internal}
use mosaic_core.Signaling.Receive
use mosaic_core.Signaling.Receive.{callbacks, on_connected, is_authenticated}
use mosaic_core.PeerConnection.{initialize_webrtc}
use mosaic_core.StateManager.{set_state}
use mosaic_core.Factory.{create_signaling, create_connector}
use mosaic_core.Tests.Setup
use mosaic_core.Tests.Setup.{
  Value, json, taking, cameras, surroundings, server_config, camera, channel, at,
}

abbrev up : Env
up = surroundings taking cameras

find_fine : (v : Value) (k : String) → json.get v k ≢ fault
find_fine Setup.null k = ground arith
find_fine (Setup.string s) k = ground arith
find_fine (Setup.int z) k = ground arith
find_fine (Setup.field j v rest) k = ground (arith, find_fine rest k)

text_fine : (v : Value) → json.as_string v ≢ fault
text_fine Setup.null = ground arith
text_fine (Setup.string s) = ground arith
text_fine (Setup.int z) = ground arith
text_fine (Setup.field j v rest) = ground arith

number_fine : (v : Value) → json.as_int v ≢ fault
number_fine Setup.null = ground arith
number_fine (Setup.string s) = ground arith
number_fine (Setup.int z) = ground arith
number_fine (Setup.field j v rest) = ground arith

-- A method that returns does not fault.
returns : {A : Type 0} {o : Outcome A} {a : A} → o ≡ ok a → o ≢ fault
returns e = ground arith

opens_fine : (t : Track Capture String String) → (cameras.create_video_track_source t).0 ≢ fault
unfolding create_video_track_source Camera.start
opens_fine t = ground arith

attaches :
    (ch : DataChannel.Channel) (h : DataChannel.Handler)
    → (set_data_channel_interface (some ch) h).0 ≢ fault
unfolding set_data_channel_interface modify
attaches ch h = ground arith

observes : (h : DataChannel.Handler) → (register_data_channel_observer h).0 ≢ fault
unfolding register_data_channel_observer
observes h = ground arith

nothing_after : (h : DataChannel.Handler) → (pure tt h).0 ≢ fault
unfolding pure
nothing_after h = ground arith

tame : Tame up
tame = record {
  get = find_fine;
  as_string = text_fine;
  as_int = number_fine;
  track_close = λ t. returns (close_camera t).0;
  track_create = opens_fine;
  channel_close = λ h. returns (close_data_channel_lem h).0;
  channel_set = attaches;
  channel_register = observes;
  channel_after = nothing_after;
}

abbrev start : System up
start = (create up server_config completed (fresh up server_config)).1

abbrev events : List (Event up)
events =
    message (text_message completed "close")
    ∷ message (text_message completed "text")
    ∷ message (text_message (failed "lost") "")
    ∷ socket_closed
    ∷ reconnects completed
    ∷ broadcast
    ∷ candidate_gathered (some "c")
    ∷ data_channel_opened channel
    ∷ connection_changed Connector.connected
    ∷ connection_changed Connector.failed
    ∷ []

made : (create up server_config completed (fresh up server_config)).0 ≡ ok true
unfolding create create_signaling create_connector connect connect_internal callbacks on_connected
    initialize_webrtc set_state Receive.start create_authenticator
made = refl

-- Handlers of the camera and of a data channel are registered first.
abbrev registered : List (Registration up)
registered = track_handler camera ∷ channel_handler (DataChannel.new_handler channel.label) ∷ []

created_run_fine_example : NoneFaults up events (register_all up registered start).1
created_run_fine_example =
    created_run_fine up tame server_config completed registered events refl made
      (tt, (tt, (tt, (tt, (tt, ((λ sent f. refl), (tt, (tt, (tt, (tt, tt))))))))))

-- A message that is none, a grant, and the next connection.
abbrev authorized_once : List (Event up)
authorized_once =
    message (text_message completed "text")
    ∷ message (text_message completed "grant")
    ∷ socket_closed
    ∷ reconnects completed
    ∷ []

created_authenticated_example :
    is_authenticated up (run up authorized_once start) ≡ (ok true, run up authorized_once start)
created_authenticated_example =
    created_authenticated up server_config completed authorized_once made

gone :
    (close_peer_connection up
      (at taking cameras rtc_connected true camera)).1.owner.peer.has_peer_connection
    ≡ false
gone =
    (close_active up (repository_closing json Setup.rtc taking String String true)
      (at taking cameras rtc_connected true camera) (λ sent f. refl)
      (record { client = λ e. refl; ws_client = λ e. refl }) refl).2

-- An answer that WebRTC has ready when the connection has been closed meets a null pointer.
late_answer :
    (after_create_sdp_answer up "sdp"
      (close_peer_connection up (at taking cameras rtc_connected true camera)).1).0
    ≡ fault
unfolding after_create_sdp_answer
late_answer = ground (arith, gone)

abbrev told_at_three : ℕ → Bool
told_at_three n = leb 3 n

thread_ends_example :
    (t' : Track Capture String String) × (thread
        (λ e. true)
        4
        told_at_three
        (λ n. some "frame")
        0
        camera
      ≡ some t')
    × (get_stop_flag t' ≡ true)
thread_ends_example = thread_ends (λ e. true) 3 0 told_at_three (λ n. some "frame") camera refl refl

sourcing : Sourcing up
unfolding create_video_track_source Camera.start pure
sourcing t = (true, ground arith)

-- A system in the middle of an offer.
abbrev negotiating : System up
negotiating =
    put_signaling
      (λ c. record c {
        authenticator =
            some
              (record { kind = no_auth; config = server_config.auth_config; authenticated = true });
      })
      (put_peer (λ p. record p { calls = set_remote_description "offer" ∷ [] })
        (at taking cameras rtc_connecting true camera))

negotiating-Wired : Wired negotiating
negotiating-Wired = record {
  client = refl;
  ws_client = refl;
  connector = refl;
  authenticator = refl;
  manager = refl;
  reporter = refl;
  factory = refl;
}

negotiate_lem_example :
    let s' = (negotiate up true (some "v=0") true negotiating).1 in
    ((negotiate up true (some "v=0") true negotiating).0 ≡ ok tt)
    × (s'.ws.sent ≡ text (json.write (answer_message up "c1" "v=0")) ∷ [])
negotiate_lem_example =
    negotiate_lem up sourcing true (some "v=0") true "offer" [] negotiating negotiating-Wired
      (λ sent f. refl) refl refl refl refl refl
