-- ===== src/MediaTrack/Lifetime.antt =====
-- The destructors of src/handlers/media_track/media_track_handler.cpp and of
-- include/mosaic/auto_configurer/impl/opencv_camera_mt_handler.hpp.
use mosaic_core.Base.{◌≡◌, false, arith}
use mosaic_core.Exec.{Exec, fault, crash, catch, ◌>>=◌, ◌>>◌}
use mosaic_core.MediaTrack.{Track, close, is_running}
use mosaic_core.MediaTrack.Camera.{Capture, InStep, stop}

-- The destructor of the base runs after that of the subclass: the `Stop` that it calls through
-- `AMediaTrackHandler::Close` is the pure virtual one, which ends the process.
unfoldable pub destroy_track : {X Fps Frame : Type 0} → Exec (Track X Fps Frame) Unit
unfolding close ◌>>=◌
destroy_track = close crash

module _ {Fps Frame : Type 0} where
  unfoldable destroy_camera : Exec (Track Capture Fps Frame) Unit
  unfolding stop destroy_track ◌>>=◌
  destroy_camera = do catch stop (λ e. crash); destroy_track

  -- The destructor of every camera track ends the process. By then the thread has been joined, and
  -- the source and a recording are as `Stop` left them.
  destroy_camera_lem :
      (t : Track Capture Fps Frame)
      → InStep t
      → ((destroy_camera t).0 ≡ fault)
        × ((destroy_camera t).1 ≡ (stop t).1)
        × ((destroy_camera t).1.extra.has_thread ≡ false)
  unfolding destroy_camera is_running
  destroy_camera_lem t i = ground arith
