-- ===== src/Python/Tracks/Tutorial.antt =====
-- The class `RecordableVideoHandler` of docs/python/tutorials/handlers.md, over the bindings of
-- python/bindings/bind_media_track.cpp.
use mosaic_core.Base.{
  ◌≡◌, ◌<◌, ◌≤◌, ◌^◌, Bool, true, false, not, ◌&&◌, none, some, List, [], ◌∷◌, ◌++◌, leb,
}
use mosaic_core.Exec.{Exec, pure, ◌>>=◌, ◌>>◌}
use mosaic_core.Recorder.{start_recording, recording}
use mosaic_core.Recorder.Invariant.{IsValid, frames_of}
use mosaic_core.MediaTrack
use mosaic_core.MediaTrack.{Track, is_running, get_stop_flag, set_running, on_recordable}
use mosaic_core.MediaTrack.Frames.{Mat, Rgb24}
use mosaic_core.Python.Frames.{Picture, array_of, mat_of, rows_of, cols_of, channels_of, send_frame}
use mosaic_core.Python.Tracks.{record_frame}

-- A picture that `send_frame` can convert.
pub record Fits (libyuv : Rgb24) (p : Picture) : Type 0 where
  pub rows : 0 < rows_of p
  pub cols : 0 < cols_of p
  pub rows_bound : rows_of p < 2 ^ 31
  pub cols_bound : cols_of p < 2 ^ 31
  pub channels : leb 3 (channels_of p) ≡ true
  pub channels_bound : channels_of p ≤ 512
  pub buffer : libyuv.creates_buffer (cols_of p) (rows_of p) ≡ true

abbrev pub AllFit : Rgb24 → List Picture → Type 0
AllFit libyuv [] = Unit
AllFit libyuv (p ∷ ps) = Fits libyuv p × AllFit libyuv ps

abbrev pub mat : Picture → Mat
mat p = mat_of (rows_of p) (cols_of p) (channels_of p) (array_of p)

abbrev pub twice : List Picture → List Mat
twice [] = []
twice (p ∷ ps) = mat p ∷ mat p ∷ twice ps

module _ {X Fps : Type 0} where
  -- The test of the loop.
  abbrev pub goes_on : Track X Fps Mat → Bool
  goes_on t = is_running t && not (get_stop_flag t)

  abbrev has_source : Track X Fps Mat → Bool
  has_source t = elim t.source [ none ↦ false | some s ↦ true ]

  record Recording (t : Track X Fps Mat) : Type 0 where
    valid : IsValid t.recorder
    recordable : t.recorder.recordable ≡ true
    state : t.recorder.record_state ≡ recording

  -- The two calls before the loop.
  unfoldable begin : Exec (Track X Fps Mat) Unit
  unfolding on_recordable start_recording set_running ◌>>=◌
  begin = do on_recordable (start_recording true); set_running true

module _ {X Fps : Type 0} (libyuv : Rgb24) where
  unfoldable pub loop_round : Picture → Exec (Track X Fps Mat) Unit
  unfolding send_frame record_frame on_recordable ◌>>=◌
  loop_round p = send_frame libyuv (array_of p) >> on_recordable (record_frame (array_of p))

  -- The loop, as far as these pictures go.
  unfoldable pub loop : List Picture → Exec (Track X Fps Mat) Unit
  unfolding loop_round ◌>>=◌
  loop [] = pure tt
  loop (p ∷ ps) = loop_round p >> loop ps

  -- `start`, whose writer opens.
  unfoldable pub start : List Picture → Exec (Track X Fps Mat) Unit
  unfolding begin loop ◌>>=◌
  start ps = do begin; loop ps

module _ {X Fps : Type 0} where
  -- What a frame leaves of a track that records.
  record Recorded (n : List Mat) (t t' : Track X Fps Mat) : Type 0 where
    flags : goes_on t' ≡ goes_on t
    frames : frames_of t'.recorder.video_recorder ≡ frames_of t.recorder.video_recorder ++ n
    now : Recording t'
    source : has_source t' ≡ has_source t
