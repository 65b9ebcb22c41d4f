-- ===== src/PeerConnection/Contract.antt =====
-- The contract that `ClosePeerConnection` needs of a handler, for those of the repository
-- (src/handlers/data_channel/data_channel_handler.cpp and
-- src/auto_configurer/impl/opencv_camera_mt_handler.cpp).
use mosaic_core.Base.{◌≡◌, Bool, none, arith}
use mosaic_core.Exec.{ok}
use mosaic_core.Env.{Env, Json, Rtc}
use mosaic_core.WebSocket.{Net}
use mosaic_core.DataChannel
use mosaic_core.DataChannel.{data_channels, close_data_channel}
use mosaic_core.Recorder.{stop_recording}
use mosaic_core.MediaTrack.{Track, media_tracks, close}
use mosaic_core.MediaTrack.Camera.{Capture, start, stop}
use mosaic_core.PeerConnection.Release.{Closing}

pub close_data_channel_lem :
    (h : DataChannel.Handler)
    → ((close_data_channel h).0 ≡ ok tt) × ((close_data_channel h).1.dc_interface ≡ none)
unfolding close_data_channel
close_data_channel_lem h = ground arith

pub close_camera :
    {Fps Frame : Type 0} (t : Track Capture Fps Frame)
    → ((close stop t).0 ≡ ok tt) × ((close stop t).1.source ≡ none)
unfolding close stop stop_recording
close_camera t = ground arith

module _ (json : Json) (rtc : Rtc) (net : Net) (Fps Frame : Type 0) (opens : Bool) where
  abbrev pub repository_env : Env
  repository_env = record {
    json = json;
    rtc = rtc;
    net = net;
    channels = data_channels;
    tracks = media_tracks (start {Fps = Fps} {Frame = Frame} opens) stop;
  }

  -- A camera is closed when it has no source, a data channel when it has no channel.
  abbrev pub repository_closing : Closing repository_env
  repository_closing = record {
    TrackClosed = λ t. t.source ≡ none;
    track_ok = λ t. (close_camera t).0;
    track_closed = λ t. (close_camera t).1;
    ChannelClosed = λ h. h.dc_interface ≡ none;
    channel_ok = λ h. (close_data_channel_lem h).0;
    channel_closed = λ h. (close_data_channel_lem h).1;
  }
