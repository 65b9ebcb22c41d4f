-- ===== src/Recorder/Invariant.antt =====
-- What holds of a `Recordable` between two calls (src/handlers/media_track/recordable.cpp).
use mosaic_core.Base.{
  String, ◌≡◌, refl, sym, append_assoc, append-nil, Bool, true, false, ◌&&◌, Option, none, some,
  List, [], ◌∷◌, ◌++◌, arith, ℕ, if◌then◌else◌,
}
use mosaic_core.Exec.{Exec, ok, fault, pure, ◌>>=◌, ◌>>◌}
use mosaic_core.Recorder.{
  VideoRecorder, Recordable, recording, paused, Files, is_valid_record_file_path, is_not_recording,
  is_recording, new_recordable, set_record_file_path, set_video_parameters, start_recording,
  pause_recording, resume_recording, stop_recording, record_frame,
}

module _ {Fps Frame : Type 0} where
  abbrev pub has_open : Option (VideoRecorder Fps Frame) → Bool
  has_open none = false
  has_open (some v) = v.is_opened

  abbrev has_writer : Option (VideoRecorder Fps Frame) → Bool
  has_writer none = false
  has_writer (some v) = true

  abbrev pub frames_of : Option (VideoRecorder Fps Frame) → List Frame
  frames_of none = []
  frames_of (some v) = v.frames

  -- A recordable track has a recorder, no other has one, and outside NotRecording its writer is
  -- open.
  pub record IsValid (r : Recordable Fps Frame) : Type 0 where
    pub recorder : has_writer r.video_recorder ≡ r.recordable
    pub writing : is_not_recording r.record_state ≡ false → has_open r.video_recorder ≡ true

-- The public methods. What `std::filesystem` and the writer answer is part of the call.
pub data Op (Fps Frame : Type 0) : Type 0 where
  set_path : String → Op Fps Frame
  set_parameters : Fps → ℕ → ℕ → Op Fps Frame
  start : Bool → Op Fps Frame
  pause resume stop : Op Fps Frame
  frame : Frame → Op Fps Frame

-- The calls of a running recording.
pub data Take (Frame : Type 0) : Type 0 where
  hold go_on : Take Frame
  shot : Frame → Take Frame

-- The frames that came while the recording was not held.
abbrev pub wanted : {Frame : Type 0} → Bool → List (Take Frame) → List Frame
wanted b [] = []
wanted b (hold ∷ ts) = wanted false ts
wanted b (go_on ∷ ts) = wanted true ts
wanted true (shot f ∷ ts) = f ∷ wanted true ts
wanted false (shot f ∷ ts) = wanted false ts

module _ {Fps Frame : Type 0} (fs : Files) where
  unfoldable pub apply : Op Fps Frame → Exec (Recordable Fps Frame) Unit
  apply (set_path p) = set_record_file_path fs p
  apply (set_parameters f w h) = set_video_parameters f w h
  apply (start opens) = start_recording opens
  apply pause = pause_recording
  apply resume = resume_recording
  apply stop = stop_recording
  apply (frame f) = record_frame f

  -- What holds before a call holds behind it, on every outcome.
  apply-IsValid :
      (op : Op Fps Frame) (r : Recordable Fps Frame) → IsValid r → IsValid (apply op r).1
  unfolding apply set_record_file_path set_video_parameters start_recording pause_recording
      resume_recording stop_recording record_frame
  apply-IsValid (set_path p) r v = ground arith
  apply-IsValid (set_parameters f w h) r v = ground arith
  apply-IsValid (start opens) r v = ground arith
  apply-IsValid pause r v = ground arith
  apply-IsValid resume r v = ground arith
  apply-IsValid stop r v = ground arith
  apply-IsValid (frame f) r v = ground arith

  -- The object after the calls, whatever each of them came to.
  unfoldable pub use_track : List (Op Fps Frame) → Recordable Fps Frame → Recordable Fps Frame
  use_track [] r = r
  use_track (op ∷ ops) r = use_track ops (apply op r).1

  use_from-IsValid :
      (ops : List (Op Fps Frame)) (r : Recordable Fps Frame) → IsValid r → IsValid (use_track ops r)
  unfolding use_track
  use_from-IsValid [] r v = v
  use_from-IsValid (op ∷ ops) r v = use_from-IsValid ops (apply op r).1 (apply-IsValid op r v)

  new_recordable-IsValid :
      (fps : Fps) (asked : Bool) → IsValid {Frame = Frame} (new_recordable fs fps asked)
  unfolding new_recordable
  new_recordable-IsValid fps asked = ground arith

  -- Whatever is called on a track, in whatever order, and whatever the file system and the writer
  -- answer: it has a recorder exactly if it is recordable, and while it records or pauses the
  -- writer is open.
  pub use_track-IsValid :
      (fps : Fps) (asked : Bool) (ops : List (Op Fps Frame))
      → IsValid (use_track ops (new_recordable fs fps asked))
  use_track-IsValid fps asked ops = use_from-IsValid ops _ (new_recordable-IsValid fps asked)

module _ {Fps Frame : Type 0} where
  abbrev pub frames_kept : Recordable Fps Frame → Frame → List Frame
  frames_kept r f =
      if r.recordable && is_recording r.record_state
      then frames_of r.video_recorder ++ f ∷ []
      else frames_of r.video_recorder

  pub record_frame_lem :
      (r : Recordable Fps Frame) (f : Frame)
      → IsValid r
      → ((record_frame f r).0 ≡ ok tt)
        × (frames_of (record_frame f r).1.video_recorder ≡ frames_kept r f)
        × ((record_frame f r).1.record_state ≡ r.record_state)
        × ((record_frame f r).1.recordable ≡ r.recordable)
        × IsValid (record_frame f r).1
  unfolding record_frame
  record_frame_lem r f v = ground arith

  take_one : Take Frame → Exec (Recordable Fps Frame) Unit
  take_one hold = pause_recording
  take_one go_on = resume_recording
  take_one (shot f) = record_frame f

  pub takes : List (Take Frame) → Exec (Recordable Fps Frame) Unit
  unfolding take_one ◌>>=◌
  takes [] = pure tt
  takes (t ∷ ts) = take_one t >> takes ts

  pause_recording_lem :
      (r : Recordable Fps Frame)
      → IsValid r
      → r.recordable ≡ true
      → is_not_recording r.record_state ≡ false
      → pause_recording r ≡ (ok tt, record r { record_state = paused })
  unfolding pause_recording
  pause_recording_lem r v w running = ground arith

  resume_recording_lem :
      (r : Recordable Fps Frame)
      → IsValid r
      → r.recordable ≡ true
      → is_not_recording r.record_state ≡ false
      → resume_recording r ≡ (ok tt, record r { record_state = recording })
  unfolding resume_recording
  resume_recording_lem r v w running = ground arith

  -- A running recording writes the frames that come while it is not held, in their order, whatever
  -- pauses and resumptions stand between them, and no call fails.
  pub takes_lem :
      (ts : List (Take Frame)) (r : Recordable Fps Frame)
      → IsValid r
      → r.recordable ≡ true
      → is_not_recording r.record_state ≡ false
      → ((takes ts r).0 ≡ ok tt)
        × (frames_of (takes ts r).1.video_recorder
            ≡ frames_of r.video_recorder ++ wanted (is_recording r.record_state) ts)
  unfolding takes
  takes_lem [] r v w running = (refl, sym (append-nil (frames_of r.video_recorder)))
  takes_lem (hold ∷ ts) r v w running =
      ground (
        arith,
        pause_recording_lem r v w running,
        takes_lem ts (record r { record_state = paused }),
      )
  takes_lem (go_on ∷ ts) r v w running = ground (
    arith,
    resume_recording_lem r v w running,
    takes_lem ts (record r { record_state = recording }),
  )
  takes_lem (shot f ∷ ts) r v w running = ground (
    arith,
    record_frame_lem r f v,
    takes_lem ts (record_frame f r).1,
    append_assoc (frames_of r.video_recorder) (f ∷ []) (wanted true ts),
  )

  -- On a track that is not recordable both setters call through a null pointer, the one of the path
  -- if the path is valid.
  pub setters_fault :
      (fs : Files) (r : Recordable Fps Frame) (fps : Fps) (w h : ℕ) (path : String)
      → IsValid r
      → r.recordable ≡ false
      → is_valid_record_file_path fs path ≡ true
      → ((set_video_parameters fps w h r).0 ≡ fault) × ((set_record_file_path fs path r).0 ≡ fault)
  unfolding set_video_parameters set_record_file_path
  setters_fault fs r fps w h path v e valid = ground arith
