-- ===== src/Env.antt =====
-- What the program uses and the repository does not hold, as records of operations: jsoncpp's
-- values, the WebRTC objects, the network; and the handlers, which the connector knows only by
-- their interfaces (include/mosaic/handlers), so that a program's own subclass may stand there.
use mosaic_core.Base.{String, Bool, Option, List}
use mosaic_core.Base.Int.{ℤ}
use mosaic_core.Exec.{Outcome, Exec}
use mosaic_core.WebSocket.{Net}

-- `get` is the const `operator[]`, which throws on what is no object and no null; `set` is
-- `v[key] = w` on an object or a null; `is_null` is the test of `operator bool`, negated.
pub record Json : Type 1 where
  pub Value : Type 0
  pub null : Value
  pub of_string : String → Value
  pub of_int : ℤ → Value
  pub set : Value → String → Value → Value
  pub get : Value → String → Outcome Value
  pub is_null : Value → Bool
  pub as_string : Value → Outcome String
  pub as_int : Value → Outcome ℤ
  pub parse : String → Option Value
  pub write : Value → String

-- `webrtc::PeerConnectionInterface::IceServer`.
pub record IceServer : Type 0 where
  pub urls : List String
  pub username : String
  pub password : String

-- The calls of the program on the objects of WebRTC.
pub data Call (Sdp Candidate : Type 0) : Type 0 where
  create_peer_connection : List IceServer → Call Sdp Candidate
  set_remote_description : Sdp → Call Sdp Candidate
  create_answer : Call Sdp Candidate
  set_local_description : Sdp → Call Sdp Candidate
  add_ice_candidate : Candidate → Call Sdp Candidate
  add_track : String → Call Sdp Candidate
  close : Call Sdp Candidate

-- What a call gives may depend on all the calls before it.
pub record Rtc : Type 1 where
  pub Sdp : Type 0
  pub Candidate : Type 0
  pub create_session_description : String → Option Sdp
  pub create_ice_candidate : String → ℤ → String → Option Candidate
  pub sdp_to_string : Sdp → String
  pub candidate_to_string : Candidate → String
  pub sdp_mid : Candidate → String
  pub sdp_mline_index : Candidate → ℤ
  pub creates_factory : Bool
  pub creates_peer_connection : List (Call Sdp Candidate) → List IceServer → Bool
  pub creates_video_track : List (Call Sdp Candidate) → String → Bool
  pub adds_track : List (Call Sdp Candidate) → String → Bool

-- `IDataChannelHandler::ChannelState`.
pub data ChannelState : Type 0 where
  connecting open_ closing closed unknown : ChannelState

-- `IDataChannelHandler`, and the label of a channel that WebRTC hands over.
pub record ChannelHandlers : Type 1 where
  pub Handler : Type 0
  pub Channel : Type 0
  pub channel_label : Channel → String
  pub get_label : Handler → String
  pub get_state : Handler → ChannelState
  pub set_data_channel_interface : Channel → Exec Handler Unit
  pub register_data_channel_observer : Exec Handler Unit
  pub after_create : Exec Handler Unit
  pub close_data_channel : Exec Handler Unit

-- `IMediaTrackHandler`; the Boolean says that the source is not null.
pub record TrackHandlers : Type 1 where
  pub Handler : Type 0
  pub get_track_name : Handler → String
  pub create_video_track_source : Exec Handler Bool
  pub close : Exec Handler Unit

pub record Env : Type 1 where
  pub json : Json
  pub rtc : Rtc
  pub net : Net
  pub channels : ChannelHandlers
  pub tracks : TrackHandlers
