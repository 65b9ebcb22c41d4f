-- ===== src/Tests/Sessions.antt =====
-- The theorems on a session, at concrete systems.
use mosaic_core.Base.{◌≡◌, false, arith}
use mosaic_core.Exec.{ok, throws}
use mosaic_core.Env.{Env}
use mosaic_core.System.{System, ready_to_connect}
use mosaic_core.WebSocket.{completed, text_message, handle_message}
use mosaic_core.Signaling.{send_sdp_answer}
use mosaic_core.Signaling.Receive.{callbacks, on_ws_message, on_message}
use mosaic_core.Signaling.Session.{thrown_message_mutes}
use mosaic_core.Tests.Setup.{taking, cameras, surroundings, camera, at}

abbrev up : Env
up = surroundings taking cameras

abbrev online : System up
online = at taking cameras ready_to_connect false camera

-- The socket has closed, and one reconnection is to come.
abbrev offline : System up
offline = record online {
  ws = record online.ws { connected = false; reconnects = 1 };
  owner = record online.owner {
    signaling = record online.owner.signaling { is_connected = false };
  };
}

thrown : (on_ws_message up "text" online).0 ≡ throws "not an object"
unfolding on_ws_message on_message
thrown = ground arith

thrown_message_mutes_example :
    let s' = (handle_message taking (callbacks up) (text_message completed "text") online).1 in
    (s'.owner.signaling.is_connected ≡ false)
    × (s'.connected ≡ (on_ws_message up "text" online).1.connected)
    × (send_sdp_answer up "answer" s' ≡ (ok tt, s'))
thrown_message_mutes_example = thrown_message_mutes up "text" "not an object" "answer" online thrown
