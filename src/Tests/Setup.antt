-- ===== src/Tests/Setup.antt =====
-- The surroundings of the tests: JSON values, a network that takes every frame and one that does
-- not, a WebRTC that grants every request, and the handlers of the repository.
use mosaic_core.Base.{
  String, ◌<>◌, ◌==◌, Bool, true, false, Option, none, some, [], ◌∷◌, if◌then◌else◌,
}
use mosaic_core.Base.Int.{ℤ, pos}
use mosaic_core.Exec.{Outcome, ok, throws}
use mosaic_core.Env.{Json, Rtc, Env, TrackHandlers}
use mosaic_core.WebSocket.{Net, completed, failed}
use mosaic_core.Config.{WebRtcConfig, ServerConfig}
use mosaic_core.System.{System, State}
use mosaic_core.DataChannel
use mosaic_core.DataChannel.{data_channels}
use mosaic_core.Recorder.{Recordable, not_recording}
use mosaic_core.MediaTrack.{Track, Source, media_tracks}
use mosaic_core.MediaTrack.Camera
use mosaic_core.MediaTrack.Camera.{Capture}

-- A value of JSON: an object is its fields, the last written first.
pub data Value : Type 0 where
  null : Value
  string : String → Value
  int : ℤ → Value
  field : String → Value → Value → Value

abbrev find : Value → String → Outcome Value
find null k = ok null
find (string s) k = throws "not an object"
find (int z) k = throws "not an object"
find (field j v rest) k = let found = find rest k in if j == k then ok v else found

abbrev missing : Value → Bool
missing null = true
missing _ = false

abbrev text_of : Value → Outcome String
text_of null = ok ""
text_of (string s) = ok s
text_of _ = throws "not convertible to string"

abbrev number_of : Value → Outcome ℤ
number_of null = ok (pos 0)
number_of (int z) = ok z
number_of _ = throws "not convertible to int"

abbrev written : Value → String
written null = "null"
written (string s) = s
written (int z) = "int"
written (field k v rest) = k <> ":" <> written v <> "," <> written rest

-- Of messages, the close of the connection is read, a grant, and a text that is no object.
abbrev read : String → Option Value
read s =
    if s == "close"
    then some (field "type" (string "signaling.close_peer_connection") null)
    else if s == "grant"
    then some (field "type" (string "authorize.res") (field "data" (int (pos 100)) null))
    else if s == "text"
    then some (string "text")
    else none

abbrev pub json : Json
json = record {
  Value = Value;
  null = null;
  of_string = string;
  of_int = int;
  set = λ o k v. field k v o;
  get = find;
  is_null = missing;
  as_string = text_of;
  as_int = number_of;
  parse = read;
  write = written;
}

abbrev pub rtc : Rtc
rtc = record {
  Sdp = String;
  Candidate = String;
  create_session_description = λ s. some s;
  create_ice_candidate = λ mid i s. some s;
  sdp_to_string = λ s. s;
  candidate_to_string = λ s. s;
  sdp_mid = λ s. s;
  sdp_mline_index = λ s. pos 0;
  creates_factory = true;
  creates_peer_connection = λ calls servers. true;
  creates_video_track = λ calls name. true;
  adds_track = λ calls name. true;
}

abbrev pub taking : Net
taking = record { send_result = λ sent f. completed; close_result = λ sent. completed }

abbrev pub broken : Net
broken = record { send_result = λ sent f. failed "broken"; close_result = λ sent. completed }

-- A camera that opens.
abbrev pub cameras : TrackHandlers
cameras = media_tracks {X = Capture} {Fps = String} {Frame = String} (Camera.start true) Camera.stop

abbrev pub surroundings : Net → TrackHandlers → Env
surroundings net tracks = record {
  json = json;
  rtc = rtc;
  net = net;
  channels = data_channels;
  tracks = tracks;
}

abbrev pub webrtc_config : WebRtcConfig
webrtc_config = record {
  ice_servers =
      record { urls = "example.com:3478" ∷ []; username = "robot"; credential = "key" } ∷ [];
}

abbrev pub server_config : ServerConfig
server_config = record {
  ws_url = "ws://localhost";
  auth_config = record { type = "no-authorization"; robot_id = "r1"; params = [] };
  webrtc_config = webrtc_config;
}

abbrev pub recorder : Recordable String String
recorder = record { recordable = false; video_recorder = none; record_state = not_recording }

abbrev running_source : Source String
running_source = record { is_running = true; stop_flag = false; frames = [] }

abbrev pub camera : Track Capture String String
camera = record {
  track_name = "front";
  source = some running_source;
  recorder = recorder;
  extra = record { has_thread = true };
}

abbrev pub channel : DataChannel.Channel
channel = record { label = "pose"; state = mosaic_core.Env.open_ }

abbrev pub sender : DataChannel.Handler
sender = record {
  label = "pose";
  dc_interface = some channel;
  has_observer = true;
  send_queue =
      record { payload = "a"; binary = false } ∷ record { payload = "b"; binary = true } ∷ [];
  is_sending = true;
  handed = [];
  sent = [];
}

-- A connected system in a state, with or without a peer connection, and with a track handler.
abbrev pub at :
    (net : Net) (tracks : TrackHandlers)
    → State
    → Bool
    → mosaic_core.Env.TrackHandlers.Handler tracks
    → System (surroundings net tracks)
at net tracks st has t = record {
  ws = record {
    connected = true;
    uri = "ws://localhost/ws/robot";
    has_client = true;
    reconnects = 0;
    sent = [];
  };
  owner = record {
    signaling = record {
      is_connected = true;
      has_ws_client = true;
      latest_state = pos 1;
      rtc_connection_id = "c1";
      has_connector = true;
      authenticator = none;
    };
    states = record { state = st; has_signaling_client = true; stop_flag = false };
    peer = record {
      has_signaling_client = true;
      has_factory = true;
      has_peer_connection = has;
      has_observer = true;
      has_threads = true;
      config = webrtc_config;
      calls = [];
    };
    connector = record {
      has_manager = true;
      data_channel_handlers = ("pose", sender) ∷ [];
      media_track_handlers = ("front", t) ∷ [];
    };
  };
}
