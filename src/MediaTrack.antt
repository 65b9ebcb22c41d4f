-- ===== src/MediaTrack.antt =====
-- src/handlers/media_track/media_track_handler.cpp: a media track handler. `Start` and `Stop` are
-- virtual, so they are parameters; `extra` holds the members of the subclass. `Frame` stands for the
-- frames of OpenCV and of WebRTC; the conversions between them are in MediaTrack/Frames.
pub mod Camera
pub mod Frames
pub mod Lifetime
pub mod Thread
use mosaic_core.Base.{String, Bool, true, false, not, ◌&&◌, Option, none, some, List, [], ◌∷◌, ◌++◌}
use mosaic_core.Exec.{Exec, pure, gets, modify, when, ◌>>=◌, ◌>>◌}
use mosaic_core.Env.{TrackHandlers}
use mosaic_core.Recorder.{Recordable, stop_recording, record_frame}

-- `ActualVideoTrackSource`; `frames` is what `OnFrame` passed on, the oldest first.
pub record Source (Frame : Type 0) : Type 0 where
  pub is_running : Bool
  pub stop_flag : Bool
  pub frames : List Frame

pub record Track (X Fps Frame : Type 0) : Type 0 where
  pub track_name : String
  pub source : Option (Source Frame)
  pub recorder : Recordable Fps Frame
  pub extra : X

unfoldable offer_frame {ℓ} : {Frame : Type ℓ} → Bool → Bool → Frame → List Frame → List Frame
offer_frame true false f fs = fs ++ f ∷ []
offer_frame _ _ f fs = fs

module _ {Frame : Type 0} where
  abbrev source_flag : (Source Frame → Bool) → Option (Source Frame) → Bool
  source_flag f none = false
  source_flag f (some s) = f s

  abbrev new_source : Option (Source Frame) → Option (Source Frame)
  new_source none = some (record { is_running = false; stop_flag = false; frames = [] })
  new_source (some s) = some s

module _ {X Fps Frame : Type 0} where
  -- `if (actual_video_track_source_) change`
  abbrev pub change_source : (Source Frame → Source Frame) → Track X Fps Frame → Track X Fps Frame
  change_source f t = record t { source = elim t.source [ none ↦ none | some s ↦ some (f s) ] }

  unfoldable pub is_running : Track X Fps Frame → Bool
  is_running t = source_flag (λ s. s.is_running) t.source

  unfoldable pub get_stop_flag : Track X Fps Frame → Bool
  get_stop_flag t = source_flag (λ s. s.stop_flag) t.source

  unfoldable pub set_running : Bool → Exec (Track X Fps Frame) Unit
  unfolding modify
  set_running b = modify (change_source (λ s. record s { is_running = b }))

  unfoldable pub set_stop_flag : Bool → Exec (Track X Fps Frame) Unit
  unfolding modify
  set_stop_flag b = modify (change_source (λ s. record s { stop_flag = b }))

  -- A call of the base class `Recordable`.
  unfoldable pub on_recordable : Exec (Recordable Fps Frame) Unit → Exec (Track X Fps Frame) Unit
  on_recordable m t = let (o, r) = m t.recorder in (o, record t { recorder = r })

  -- `SendFrame` of `Impl`: the source passes a frame on while it runs and is not told to stop.
  abbrev send_to_source : Frame → Exec (Track X Fps Frame) Unit
  send_to_source f =
      modify
        (change_source (λ s. record s { frames = offer_frame s.is_running s.stop_flag f s.frames }))

  unfoldable pub send_frame : Frame → Exec (Track X Fps Frame) Unit
  unfolding on_recordable offer_frame ◌>>=◌
  send_frame f = do send_to_source f; on_recordable (record_frame f)

  -- The source is never null.
  unfoldable pub create_video_track_source :
      Exec (Track X Fps Frame) Unit → Exec (Track X Fps Frame) Bool
  unfolding ◌>>=◌
  create_video_track_source start = do
    modify (λ t. record t { source = new_source t.source })
    start
    pure true

  unfoldable pub close : Exec (Track X Fps Frame) Unit → Exec (Track X Fps Frame) Unit
  unfolding on_recordable ◌>>=◌
  close stop = do stop; on_recordable stop_recording; modify (λ t. record t { source = none })

  -- The interface that the connector uses.
  abbrev pub media_tracks :
      Exec (Track X Fps Frame) Unit → Exec (Track X Fps Frame) Unit → TrackHandlers
  media_tracks start stop = record {
    Handler = Track X Fps Frame;
    get_track_name = λ t. t.track_name;
    create_video_track_source = create_video_track_source start;
    close = close stop;
  }
