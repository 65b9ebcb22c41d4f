-- ===== src/Python/Frames.antt =====
-- python/bindings/bind_media_track.cpp: frames that come as NumPy arrays.
use mosaic_core.Base.{ℕ, ◌+◌, ◌*◌, ◌%◌, ◌^◌, Bool, true, false, Option, none, some, List, [], ◌∷◌}
use mosaic_core.Exec.{Outcome, ok, throws, Exec, pure, lift, gets, when, ◌>>=◌, ◌>>◌}
use mosaic_core.MediaTrack
use mosaic_core.MediaTrack.{Track, Source}
use mosaic_core.MediaTrack.Frames.{Mat, Rgb24, cv_mat_to_video_frame}

-- The formats that `numpy_to_mat` knows, and all others.
pub data Format : Type 0 where
  uchar float double unsupported : Format

-- `py::array_t`, contiguous by its flags.
pub record Array : Type 0 where
  pub shape : List ℕ
  pub format : Format

abbrev pub item_size : Format → ℕ
item_size uchar = 1
item_size float = 4
item_size double = 8
item_size unsupported = 0

abbrev product : List ℕ → ℕ
product [] = 1
product (n ∷ rest) = n * product rest

-- `CV_8UC` and its like keep the number of channels less one in nine bits.
abbrev pub to_channels : ℕ → ℕ
to_channels n = (n + 511) % 512 + 1

-- A dimension becomes an `int`, written as its value modulo 2^32.
abbrev pub to_int : ℕ → ℕ
to_int n = n % 2 ^ 32

abbrev pub mat_of : ℕ → ℕ → ℕ → Array → Mat
mat_of rows cols channels a = record {
  rows = to_int rows;
  cols = to_int cols;
  channels = to_channels channels;
  depth = item_size a.format;
  memory = product a.shape * item_size a.format;
}

abbrev by_shape : List ℕ → Array → Outcome Mat
by_shape (cols ∷ []) a = ok (mat_of 1 cols 1 a)
by_shape (rows ∷ cols ∷ []) a = ok (mat_of rows cols 1 a)
by_shape (rows ∷ cols ∷ channels ∷ []) a = ok (mat_of rows cols channels a)
by_shape _ a = throws "NumPy array dimensions must be 1, 2, or 3."

abbrev by_format : Format → Outcome Mat → Outcome Mat
by_format unsupported (ok m) = throws "Unsupported NumPy data type"
by_format _ o = o

-- The test of the dimensions comes before the one of the format.
unfoldable pub numpy_to_mat : Array → Outcome Mat
numpy_to_mat a = by_format a.format (by_shape a.shape a)

-- The pictures of `send_frame`: one row of grey, grey, or of some channels.
pub data Picture : Type 0 where
  line : ℕ → Picture
  grey : ℕ → ℕ → Picture
  colour : ℕ → ℕ → ℕ → Picture

abbrev pub array_of : Picture → Array
array_of (line w) = record { shape = w ∷ []; format = uchar }
array_of (grey h w) = record { shape = h ∷ w ∷ []; format = uchar }
array_of (colour h w c) = record { shape = h ∷ w ∷ c ∷ []; format = uchar }

abbrev pub rows_of : Picture → ℕ
rows_of (line w) = 1
rows_of (grey h w) = h
rows_of (colour h w c) = h

abbrev pub cols_of : Picture → ℕ
cols_of (line w) = w
cols_of (grey h w) = w
cols_of (colour h w c) = w

abbrev pub channels_of : Picture → ℕ
channels_of (line w) = 1
channels_of (grey h w) = 1
channels_of (colour h w c) = c

abbrev has_source : Option (Source Mat) → Bool
has_source none = false
has_source (some s) = true

module _ {X Fps : Type 0} (libyuv : Rgb24) where
  -- The lambda of `send_frame` with the `SendFrame` that it calls: the conversion is made if there is a
  -- source.
  unfoldable pub send_frame : Array → Exec (Track X Fps Mat) Unit
  unfolding numpy_to_mat cv_mat_to_video_frame ◌>>=◌
  send_frame a = do
    m ← lift (numpy_to_mat a)
    has ← gets (λ t. has_source t.source)
    when has (lift (cv_mat_to_video_frame libyuv m) >> pure tt)
    MediaTrack.send_frame m
