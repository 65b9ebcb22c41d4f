-- ===== src/MediaTrack/Camera.antt =====
-- src/auto_configurer/impl/opencv_camera_mt_handler.cpp: the camera track.
pub mod Configure
pub mod Described
use mosaic_core.Base.{
  String, ◌≡◌, Bool, true, false, not, ◌&&◌, Option, none, some, arith, if◌then◌else◌,
}
use mosaic_core.Exec.{Exec, crash, ok, pure, gets, modify, when, catch, ◌>>=◌, ◌>>◌}
use mosaic_core.Recorder.{Recordable, not_recording, stop_recording}
use mosaic_core.Recorder.Invariant.{IsValid}
use mosaic_core.MediaTrack.{
  Source, Track, is_running, get_stop_flag, set_running, set_stop_flag, send_frame,
  create_video_track_source, close,
}

-- `has_thread` is `frame_loop_thread_`.
pub record Capture : Type 0 where
  pub has_thread : Bool

module _ {Fps Frame : Type 0} where
  -- `opens` is what `capture_.open` answers; the settings of the device are left out.
  unfoldable pub start : Bool → Exec (Track Capture Fps Frame) Unit
  unfolding is_running set_running set_stop_flag ◌>>=◌
  start opens = do
    running ← gets is_running
    when (not running && opens) (do
      set_running true
      set_stop_flag false
      modify (λ t. record t { extra = record { has_thread = true } }))

  -- The thread sees the flag and is joined.
  unfoldable pub stop : Exec (Track Capture Fps Frame) Unit
  unfolding is_running set_running set_stop_flag ◌>>=◌
  stop = do
    running ← gets is_running
    when running (do
      set_stop_flag true
      modify (λ t. record t { extra = record { has_thread = false } })
      set_running false)

  -- `FrameLoop` with what `capture_.read` gives.
  unfoldable pub frame_loop : Option Frame → Exec (Track Capture Fps Frame) Unit
  frame_loop none = pure tt
  frame_loop (some f) = send_frame f

  -- One round of the thread, which ends the loop by its test. An exception of OpenCV, which `is_opencv`
  -- tells by its text, is logged; another one leaves the thread and ends the process.
  unfoldable pub round : (String → Bool) → Option Frame → Exec (Track Capture Fps Frame) Unit
  unfolding get_stop_flag frame_loop ◌>>=◌
  round is_opencv read = do
    stopped ← gets get_stop_flag
    when (not stopped) (catch (frame_loop read) (λ e. if is_opencv e then pure tt else crash))

  -- A source runs, and is not told to stop, exactly while there is a thread.
  pub record InStep (t : Track Capture Fps Frame) : Type 0 where
    pub thread : is_running t ≡ t.extra.has_thread
    pub flag : is_running t ≡ true → get_stop_flag t ≡ false

  start-InStep :
      (opens : Bool) (t : Track Capture Fps Frame) (s : Source Frame)
      → t.source ≡ some s
      → InStep t
      → InStep (start opens t).1
  unfolding start get_stop_flag
  start-InStep opens t s e i = ground arith

  stop-InStep : (t : Track Capture Fps Frame) → InStep t → InStep (stop t).1
  unfolding stop get_stop_flag
  stop-InStep t i = ground arith

  stop_recording_ok :
      (r : Recordable Fps Frame)
      → IsValid r
      → ((stop_recording r).0 ≡ ok tt)
        × ((stop_recording r).1.record_state
            ≡ (if r.recordable then not_recording else r.record_state))
  unfolding stop_recording
  stop_recording_ok r v = ground arith

  -- `Close` of a camera track returns, with the thread joined, no recording and no source, from any
  -- state of its recorder that the methods reach.
  close_lem :
      (t : Track Capture Fps Frame)
      → IsValid t.recorder
      → InStep t
      → ((close stop t).0 ≡ ok tt)
        × ((close stop t).1.source ≡ none)
        × ((close stop t).1.extra.has_thread ≡ false)
  unfolding close stop
  close_lem t v i = ground (arith, stop_recording_ok t.recorder v)

  -- A track that was closed and is created again runs: the new source does not keep the stop flag.
  pub reopened :
      (t : Track Capture Fps Frame)
      → IsValid t.recorder
      → InStep t
      → let t' = (create_video_track_source (start true) (close stop t).1).1 in
        (is_running t' ≡ true) × (get_stop_flag t' ≡ false) × (t'.extra.has_thread ≡ true)
  unfolding create_video_track_source start get_stop_flag
  reopened t v i = ground (arith, close_lem t v i)
