-- ===== src/Config.antt =====
-- include/mosaic/configs_decl.hpp: the configuration that the reader fills in. The `unordered_map`
-- of parameters is a list that keeps one entry for each key.
pub mod Reader
pub mod Resolver
pub mod Represents
pub mod Fields
pub mod Reads
use mosaic_core.Base.{String, List, ◌<>◌}
use mosaic_core.Base.Dict.{Dict}

abbrev pub Params : Type 0
Params = Dict String

pub record IceServerConfig : Type 0 where
  pub urls : List String
  pub username : String
  pub credential : String

pub record WebRtcConfig : Type 0 where
  pub ice_servers : List IceServerConfig

pub record AuthConfig : Type 0 where
  pub type : String
  pub robot_id : String
  pub params : Params

pub record ConnectorConfig : Type 0 where
  pub type : String
  pub label : String
  pub params : Params

pub record ServerConfig : Type 0 where
  pub ws_url : String
  pub auth_config : AuthConfig
  pub webrtc_config : WebRtcConfig

unfoldable pub get_signaling_url : ServerConfig → String
get_signaling_url c = c.ws_url <> "/ws/robot"

pub record MosaicConfig : Type 0 where
  pub server : ServerConfig
  pub connectors : List ConnectorConfig
