-- ===== src/MediaTrack/Camera/Configure.antt =====
-- `Configure` of src/auto_configurer/impl/opencv_camera_mt_handler.cpp: the settings of the camera, which are
-- texts in the configuration.
use mosaic_core.Base.{String, ◌==◌, Option, none, some, if◌then◌else◌}
use mosaic_core.Base.Int.{ℤ, pos}
use mosaic_core.Base.Dict.{lookup, insert}
use mosaic_core.Exec.{Outcome, Exec, pure, gets, lift, ok, ◌>>=◌}
use mosaic_core.Exec.Stoi.{stoi}
use mosaic_core.Config.{ConnectorConfig}

-- The members that the constructor of `OpenCVCameraMediaTrack` sets.
pub record Settings (Float : Type 0) : Type 0 where
  pub track_name : String
  pub frame_rate : Float
  pub camera_id : ℤ
  pub width : ℤ
  pub height : ℤ

abbrev pub text_or_empty : Option String → String
text_or_empty none = ""
text_or_empty (some t) = t

abbrev pub put_missing : String → Option String → ConnectorConfig → ConnectorConfig
put_missing key none c = record c { params = insert key "" c.params }
put_missing key (some t) c = c

-- `params[key]`, which inserts an empty text under a key that is not there.
unfoldable pub param : String → Exec ConnectorConfig String
param key c = (ok (text_or_empty (lookup key c.params)), put_missing key (lookup key c.params) c)

-- `params[key] != "" ? convert(params[key]) : otherwise`
unfoldable pub param_or : {A : Type 0} → String → (String → Outcome A) → A → Exec ConnectorConfig A
unfolding param ◌>>=◌
param_or key convert otherwise = do
  text ← param key
  if text == "" then pure otherwise else (do again ← param key; lift (convert again))

-- `stof` is `std::stof`, and `thirty` is 30.0f.
unfoldable pub configure :
    {Float : Type 0} → (String → Outcome Float) → Float → Exec ConnectorConfig (Settings Float)
unfolding param_or stoi ◌>>=◌
configure stof thirty = do
  frame_rate ← param_or "fps" stof thirty
  camera_id ← param_or "camera_id" stoi (pos 0)
  width ← param_or "width" stoi (pos 640)
  height ← param_or "height" stoi (pos 480)
  label ← gets (λ c. c.label)
  pure (record {
    track_name = label;
    frame_rate = frame_rate;
    camera_id = camera_id;
    width = width;
    height = height;
  })
