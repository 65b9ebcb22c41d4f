-- ===== src/Tests/Cameras.antt =====
-- The camera's configuration at concrete parameters.
use mosaic_core.Base.{◌≡◌, refl, [], ◌∷◌}
use mosaic_core.Base.Int.{pos, negsuc}
use mosaic_core.Base.Dict.{lookup}
use mosaic_core.Exec.{ok, throws}
use mosaic_core.Exec.Stoi.{stoi}
use mosaic_core.Config.{ConnectorConfig, Params}
use mosaic_core.MediaTrack.Camera.Configure.{configure}
use mosaic_core.MediaTrack.Camera.Described.{configure_lem}

abbrev camera_config : Params → ConnectorConfig
camera_config params = record { type = "opencv-sender-camera"; label = "front"; params = params }

-- A frame rate in whole numbers stands for one in floats.
configure_lem_example :
    (configure stoi (pos 30) (camera_config (("camera_id", "") ∷ ("width", "1280") ∷ []))).0
    ≡ ok (record {
      track_name = "front";
      frame_rate = pos 30;
      camera_id = pos 0;
      width = pos 1280;
      height = pos 480;
    })
unfolding lookup stoi
configure_lem_example =
    configure_lem stoi (pos 30) (camera_config (("camera_id", "") ∷ ("width", "1280") ∷ []))

wide_by_words :
    (configure stoi (pos 30) (camera_config (("width", "wide") ∷ []))).0 ≡ throws "invalid_argument"
unfolding lookup stoi
wide_by_words = configure_lem stoi (pos 30) (camera_config (("width", "wide") ∷ []))

too_wide : stoi "2147483648" ≡ throws "out_of_range"
unfolding stoi
too_wide = refl

with_sign : stoi "  -12px" ≡ ok (negsuc 11)
unfolding stoi
with_sign = refl
