-- ===== src/Recorder.antt =====
-- src/handlers/media_track/video_recorder.cpp and recordable.cpp: recording the frames of a track.
-- Frames per second are a floating-point number, so their type is the parameter `Fps`; `Frame` is
-- that of `cv::Mat`. The file name of a recording, which the clock gives, is left out.
pub mod Invariant
use mosaic_core.Base.{
  String, Bool, true, false, not, Option, none, some, List, [], ◌∷◌, ◌++◌, if◌then◌else◌, ◌&&◌,
  ◌==◌, ℕ,
}
use mosaic_core.Exec.{Exec, pure, throw, crash, gets, modify, when, ◌>>=◌, ◌>>◌}

-- `frames` is what `write` of the open writer was called with, the oldest first: OpenCV may leave a
-- frame of another size than the writer's out of the file.
pub record VideoRecorder (Fps Frame : Type 0) : Type 0 where
  pub record_file_path : String
  pub fps : Fps
  pub width : ℕ
  pub height : ℕ
  pub is_opened : Bool
  pub frames : List Frame

pub data RecordState : Type 0 where
  not_recording recording paused : RecordState

pub record Recordable (Fps Frame : Type 0) : Type 0 where
  pub recordable : Bool
  pub video_recorder : Option (VideoRecorder Fps Frame)
  pub record_state : RecordState

-- The answers of `std::filesystem`: `is_directory` and `writable` are asked after a creation.
pub record Files : Type 0 where
  pub exists : String → Bool
  pub create_directories : String → Bool
  pub is_directory : String → Bool
  pub writable : String → Bool

unfoldable pub is_valid_record_file_path : Files → String → Bool
is_valid_record_file_path fs path =
    if path == ""
    then false
    else if not (fs.exists path) && not (fs.create_directories path)
    then false
    else if not (fs.is_directory path)
    then false
    else fs.writable path

abbrev pub is_not_recording : RecordState → Bool
is_not_recording not_recording = true
is_not_recording _ = false

abbrev pub is_recording : RecordState → Bool
is_recording recording = true
is_recording _ = false

abbrev pub is_paused : RecordState → Bool
is_paused paused = true
is_paused _ = false

abbrev is_some {ℓ} : {A : Type ℓ} → Option A → Bool
is_some none = false
is_some (some a) = true

module _ {Fps Frame : Type 0} where
  -- `VideoRecorder::Start`; `opens` is what `VideoWriter::open` comes to.
  unfoldable pub start_writer : Bool → Exec (VideoRecorder Fps Frame) Unit
  unfolding ◌>>=◌
  start_writer opens = do
    opened ← gets (λ v. v.is_opened)
    when (not opened) (
        if opens
        then modify (λ v. record v { is_opened = true; frames = [] })
        else throw "Failed to open video writer")

  unfoldable pub stop_writer : Exec (VideoRecorder Fps Frame) Unit
  unfolding ◌>>=◌
  stop_writer = do
    opened ← gets (λ v. v.is_opened)
    when opened (modify (λ v. record v { is_opened = false }))

  abbrev write_if : Bool → Frame → Exec (VideoRecorder Fps Frame) Unit
  write_if true f = modify (λ v. record v { frames = v.frames ++ f ∷ [] })
  write_if false f = throw "Video writer is not opened"

  unfoldable pub save_frame : Frame → Exec (VideoRecorder Fps Frame) Unit
  unfolding ◌>>=◌
  save_frame f = do opened ← gets (λ v. v.is_opened); write_if opened f

  -- A call through `video_recorder_`.
  unfoldable pub on_recorder :
      Exec (VideoRecorder Fps Frame) Unit
      → Option (VideoRecorder Fps Frame)
      → Exec (Recordable Fps Frame) Unit
  on_recorder m none r = crash r
  on_recorder m (some v) r = let (o, v') = m v in (o, record r { video_recorder = some v' })

  unfoldable pub with_recorder :
      Exec (VideoRecorder Fps Frame) Unit → Exec (Recordable Fps Frame) Unit
  unfolding on_recorder crash
  with_recorder m r = on_recorder m r.video_recorder r

  -- The constructor, with the directory "./recordings" and the writer's 30 frames of 640 by 480.
  unfoldable pub new_recordable : Files → Fps → Bool → Recordable Fps Frame
  unfolding is_valid_record_file_path
  new_recordable fs fps wanted =
      if wanted && is_valid_record_file_path fs "./recordings"
      then record {
        recordable = true;
        video_recorder = some (record {
          record_file_path = "./recordings";
          fps = fps;
          width = 640;
          height = 480;
          is_opened = false;
          frames = [];
        });
        record_state = not_recording;
      }
      else record { recordable = false; video_recorder = none; record_state = not_recording }

  -- The test for a running recording is only written to the log.
  unfoldable pub set_record_file_path : Files → String → Exec (Recordable Fps Frame) Unit
  unfolding with_recorder modify when
  set_record_file_path fs path =
      when (is_valid_record_file_path fs path)
        (with_recorder (modify (λ v. record v { record_file_path = path })))

  unfoldable pub set_video_parameters : Fps → ℕ → ℕ → Exec (Recordable Fps Frame) Unit
  unfolding with_recorder modify
  set_video_parameters fps width height =
      with_recorder (modify (λ v. record v { fps = fps; width = width; height = height }))

  unfoldable pub start_recording : Bool → Exec (Recordable Fps Frame) Unit
  unfolding with_recorder start_writer ◌>>=◌
  start_recording opens = do
    r ← gets (λ r. r)
    when (r.recordable && is_some r.video_recorder)
        (do with_recorder (start_writer opens); modify (λ r. record r { record_state = recording }))

  unfoldable pub pause_recording : Exec (Recordable Fps Frame) Unit
  unfolding ◌>>=◌
  pause_recording = do
    r ← gets (λ r. r)
    when (r.recordable && is_recording r.record_state)
        (modify (λ r. record r { record_state = paused }))

  unfoldable pub resume_recording : Exec (Recordable Fps Frame) Unit
  unfolding ◌>>=◌
  resume_recording = do
    r ← gets (λ r. r)
    when (r.recordable && is_paused r.record_state)
        (modify (λ r. record r { record_state = recording }))

  unfoldable pub stop_recording : Exec (Recordable Fps Frame) Unit
  unfolding with_recorder stop_writer ◌>>=◌
  stop_recording = do
    r ← gets (λ r. r)
    when (r.recordable && is_some r.video_recorder)
        (do with_recorder stop_writer; modify (λ r. record r { record_state = not_recording }))

  unfoldable pub record_frame : Frame → Exec (Recordable Fps Frame) Unit
  unfolding with_recorder save_frame ◌>>=◌
  record_frame f = do
    r ← gets (λ r. r)
    when (r.recordable && is_recording r.record_state) (with_recorder (save_frame f))
