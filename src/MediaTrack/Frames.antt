-- ===== src/MediaTrack/Frames.antt =====
-- src/handlers/media_track/media_track_handler.cpp: the conversions between `cv::Mat` and
-- `webrtc::VideoFrame`, by their sizes. The pixels are left out.
use mosaic_core.Base.{ℕ, suc, ◌+◌, ◌*◌, ◌≤◌, ◌≡◌, Bool, true, if◌then◌else◌, leb, arith}
use mosaic_core.Exec.{Outcome, ok, fault}
use mosaic_core.Exec.Fallible.{◌>>=◌}

-- `cv::Mat`: `channels` and `depth`, the bytes of one channel of a pixel, are its type, and `memory`
-- is the number of bytes behind `data`.
pub record Mat : Type 0 where
  pub rows : ℕ
  pub cols : ℕ
  pub channels : ℕ
  pub depth : ℕ
  pub memory : ℕ

-- `step[0]` of a matrix without gaps.
abbrev pub step : Mat → ℕ
step m = m.cols * m.channels * m.depth

-- `webrtc::VideoFrame`.
pub record VideoFrame : Type 0 where
  pub width : ℕ
  pub height : ℕ

-- libyuv's RGB24 is three bytes for a pixel, a row every `stride` bytes: `extent stride width height`
-- is how many bytes from the first on a conversion touches. `creates_buffer width height` says
-- whether WebRTC's `I420Buffer::Create` makes a buffer of that size.
pub record Rgb24 : Type 0 where
  pub extent : ℕ → ℕ → ℕ → ℕ
  pub creates_buffer : ℕ → ℕ → Bool

-- What libyuv documents.
pub record Documented (libyuv : Rgb24) : Type 0 where
  pub extent_lem :
      (stride width r : ℕ) → libyuv.extent stride width (suc r) ≡ r * stride + 3 * width

module _ (libyuv : Rgb24) where
  -- A buffer that WebRTC refuses to make ends the process. `RGB24ToI420` reads the matrix whatever its
  -- type is; a read behind its memory is a `fault`.
  unfoldable pub cv_mat_to_video_frame : Mat → Outcome VideoFrame
  cv_mat_to_video_frame m =
      if libyuv.creates_buffer m.cols m.rows
      then (if leb (libyuv.extent (step m) m.cols m.rows) m.memory
          then ok (record { width = m.cols; height = m.rows })
          else fault)
      else fault

  abbrev pub rgb_mat : VideoFrame → Mat
  rgb_mat f = record {
    rows = f.height;
    cols = f.width;
    channels = 3;
    depth = 1;
    memory = f.width * f.height * 3;
  }

  -- `width * height * 3` is an `int`, whose overflow is undefined; `I420ToRGB24` writes the buffer.
  unfoldable pub video_frame_to_cv_mat : VideoFrame → Outcome Mat
  video_frame_to_cv_mat f =
      if leb (f.width * f.height * 3) 2147483647
      then (if leb (libyuv.extent (f.width * 3) f.width f.height) (f.width * f.height * 3)
          then ok (rgb_mat f)
          else fault)
      else fault

  leb-true : (a b : ℕ) → a ≤ b → leb a b ≡ true
  leb-true a b h = ground arith

  leb_refl : (a : ℕ) → leb a a ≡ true
  leb_refl a = ground arith

  area : (w r : ℕ) → r * (w * 3) + 3 * w ≡ w * suc r * 3
  area w r = grind arith

  -- A frame with at least one row whose RGB bytes an `int` can count, and of a size of which WebRTC
  -- makes buffers, becomes a matrix, with no write
  -- behind the buffer, and a frame of the same size again, with no read behind the matrix.
  pub video_frame_round_trip :
      (d : Documented libyuv) (w r : ℕ)
      → w * suc r * 3 ≤ 2147483647
      → libyuv.creates_buffer w (suc r) ≡ true
      → (video_frame_to_cv_mat (record { width = w; height = suc r }) >>= cv_mat_to_video_frame)
        ≡ ok (record { width = w; height = suc r })
  unfolding video_frame_to_cv_mat cv_mat_to_video_frame
  video_frame_round_trip d w r small made = ground (
    arith,
    d.extent_lem (w * 3) w r,
    area w r,
    leb-true (w * suc r * 3) 2147483647 small,
    leb_refl (w * suc r * 3),
    leb_refl (w * suc r * 3),
  )
