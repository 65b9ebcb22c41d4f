-- ===== src/Events.antt =====
-- The threads of the program as an interleaving: each event is one call into the system from the
-- WebSocket client, from WebRTC or from the broadcast thread.
pub mod Messages
pub mod Keeps
pub mod Dead
pub mod Authenticated
pub mod Owned
pub mod Wired
pub mod NoFault
pub mod Armed
pub mod Unbroken
pub mod Negotiation
pub mod Machine
use mosaic_core.Base.{List, [], ◌∷◌, Option}
use mosaic_core.Env.{Env}
use mosaic_core.System.{Action, System}
use mosaic_core.WebSocket.{Task, Incoming, handle_message, handle_close, reconnect}
use mosaic_core.StateManager.{broadcast_round}
use mosaic_core.PeerConnection.{
  after_set_session_description, after_create_sdp_answer, after_set_local_description,
}
use mosaic_core.Connector.{
  PeerConnectionState, on_data_channel, on_ice_candidate, on_connection_change,
}
use mosaic_core.Signaling.Receive.{callbacks}

pub data Event (env : Env) : Type 0 where
  message : Incoming → Event env
  socket_closed : Event env
  reconnects : Task → Event env
  broadcast : Event env
  remote_description_set : Event env
  answer_created : env.rtc.Sdp → Event env
  local_description_set : env.rtc.Sdp → Event env
  candidate_gathered : Option env.rtc.Candidate → Event env
  data_channel_opened : env.channels.Channel → Event env
  connection_changed : PeerConnectionState → Event env

module _ (env : Env) where
  unfoldable pub step : Event env → Action env Unit
  step (message m) = handle_message env.net (callbacks env) m
  step socket_closed = handle_close env.net (callbacks env)
  step (reconnects dial) = reconnect env.net (callbacks env) dial
  step broadcast = broadcast_round env
  step remote_description_set = after_set_session_description env
  step (answer_created d) = after_create_sdp_answer env d
  step (local_description_set d) = after_set_local_description env d
  step (candidate_gathered c) = on_ice_candidate env c
  step (data_channel_opened ch) = on_data_channel env ch
  step (connection_changed c) = on_connection_change env c

  -- The state after a list of events. It goes on also after an event that would end the process, so
  -- what holds of every run holds at each moment of a real one.
  unfoldable pub run : List (Event env) → System env → System env
  run [] s = s
  run (e ∷ es) s = run es (step e s).1
