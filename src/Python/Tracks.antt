-- ===== src/Python/Tracks.antt =====
-- python/bindings/bind_media_track.cpp: media track handlers written in Python, which are those of
-- src/handlers/media_track with the methods `start` and `stop` of a Python class.
pub mod Tutorial
pub mod Missing
use mosaic_core.Base.{String, Bool, true, false, Option, none, some}
use mosaic_core.Exec.{Exec, throw, lift, gets, ◌>>=◌}
use mosaic_core.Env.{TrackHandlers}
use mosaic_core.Recorder
use mosaic_core.Recorder.{Recordable}
use mosaic_core.MediaTrack
use mosaic_core.MediaTrack.{Track, media_tracks}
use mosaic_core.MediaTrack.Frames.{Mat}
use mosaic_core.Python.Frames.{Array, numpy_to_mat}

-- `PYBIND11_OVERRIDE_PURE_NAME`: the method of the Python object if its class has one; `raised` is
-- what pybind11 throws otherwise, for the name of the method.
abbrev pub override_pure {ℓ} :
    {S : Type ℓ} → (String → String) → String → Option (Exec S Unit) → Exec S Unit
override_pure raised name none = throw (raised name)
override_pure raised name (some m) = m

-- The two methods of a Python class, where it has them.
pub record TrackMethods (X Fps Frame : Type 0) : Type 0 where
  pub start : Option (Exec (Track X Fps Frame) Unit)
  pub stop : Option (Exec (Track X Fps Frame) Unit)

module _ {X Fps Frame : Type 0} where
  -- `PyAMediaTrackHandler`, as the connector uses it.
  abbrev pub python_tracks : (String → String) → TrackMethods X Fps Frame → TrackHandlers
  python_tracks raised m =
      media_tracks (override_pure raised "start" m.start) (override_pure raised "stop" m.stop)

  -- `dynamic_cast<PyAMediaTrackHandler&>(self)`: the cast of a handler of C++ throws.
  abbrev cast_to_python :
      {A : Type 0} → Bool → Exec (Track X Fps Frame) A → Exec (Track X Fps Frame) A
  cast_to_python true m = m
  cast_to_python false m = throw "std::bad_cast"

  -- `set_running`, `get_stop_flag` and `set_stop_flag`; the first argument says that the object is one
  -- of Python.
  unfoldable pub set_running_public : Bool → Bool → Exec (Track X Fps Frame) Unit
  unfolding throw
  set_running_public from_python b = cast_to_python from_python (MediaTrack.set_running b)

  unfoldable pub get_stop_flag_public : Bool → Exec (Track X Fps Frame) Bool
  unfolding throw gets
  get_stop_flag_public from_python = cast_to_python from_python (gets MediaTrack.get_stop_flag)

  unfoldable pub set_stop_flag_public : Bool → Bool → Exec (Track X Fps Frame) Unit
  unfolding throw
  set_stop_flag_public from_python b = cast_to_python from_python (MediaTrack.set_stop_flag b)

-- The lambda of `record_frame`.
unfoldable pub record_frame : {Fps : Type 0} → Array → Exec (Recordable Fps Mat) Unit
unfolding numpy_to_mat ◌>>=◌
record_frame a = lift (numpy_to_mat a) >>= Recorder.record_frame
