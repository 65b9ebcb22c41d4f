-- ===== src/Config/Reader.antt =====
-- src/config_reader/yaml_config_reader.cpp: the configuration from a file of YAML. yaml-cpp is not
-- part of the repository, so its operations are the parameter `Yaml`.
use mosaic_core.Base.{String, Bool, List, [], ◌∷◌, if◌then◌else◌, ◌||◌, ◌==◌}
use mosaic_core.Base.Dict.{insert}
use mosaic_core.Exec.{Outcome, ok, throws}
use mosaic_core.Exec.Fallible.{◌>>=◌, traverse}
use mosaic_core.Config.{
  Params, IceServerConfig, WebRtcConfig, AuthConfig, ConnectorConfig, ServerConfig, MosaicConfig,
}

-- `get` is the const `operator[]`, `is_defined` the conversion to `bool`, `as_string` is
-- `as<std::string>`; `items` is what a loop over a node gives, and `fields` what it gives as pairs.
pub record Yaml : Type 1 where
  pub Node : Type 0
  pub load_file : String → Outcome Node
  pub get : Node → String → Outcome Node
  pub is_defined : Node → Bool
  pub as_string : Node → Outcome String
  pub items : Node → List Node
  pub fields : Node → List (Node × Node)

unfoldable pub is_supported_extension : String → Bool
is_supported_extension extension = extension == "yaml" || extension == "yml"

-- The writes of a loop, in its order.
abbrev pub insert_all : List (String × String) → Params → Params
insert_all [] params = params
insert_all ((key, value) ∷ rest) params = insert_all rest (insert key value params)

module _ (yaml : Yaml) where
  open yaml use {Node}

  abbrev defined : String → Node → Outcome Node
  defined e v = if yaml.is_defined v then ok v else throws e

  -- `if (node[key]) ... else throw`
  unfoldable pub required : Node → String → String → Outcome Node
  required node key e = yaml.get node key >>= defined e

  unfoldable pub text_field : Node → String → String → Outcome String
  unfolding required
  text_field node key e = required node key e >>= yaml.as_string

  -- `params[key] = value`; the value is converted first.
  unfoldable pub parse_param : Node × Node → Outcome (String × String)
  parse_param (k, v) = do value ← yaml.as_string v; key ← yaml.as_string k; ok (key, value)

  abbrev params_of : Node → Outcome Params
  params_of v =
      if yaml.is_defined v
      then traverse parse_param (yaml.fields v) >>= (λ ps. ok (insert_all ps []))
      else ok []

  -- The optional "params" of a connector and of the authentication.
  unfoldable pub parse_params : Node → Outcome Params
  parse_params node = yaml.get node "params" >>= params_of

  unfoldable pub parse_ice_server : Node → Outcome IceServerConfig
  parse_ice_server node = do
    list ← required node "urls" "Ice server urls are not found."
    urls ← traverse yaml.as_string (yaml.items list)
    username ← text_field node "username" "Ice server username is not found."
    credential ← text_field node "credential" "Ice server credential is not found."
    ok (record { urls = urls; username = username; credential = credential })

  unfoldable pub parse_ice_servers : Node → Outcome (List IceServerConfig)
  parse_ice_servers node = traverse parse_ice_server (yaml.items node)

  unfoldable pub parse_webrtc_config : Node → Outcome WebRtcConfig
  parse_webrtc_config node = do
    servers ← required node "ice_servers" "WebRTC ice servers are not found."
    ice_servers ← parse_ice_servers servers
    ok (record { ice_servers = ice_servers })

  unfoldable pub parse_auth_config : Node → Outcome AuthConfig
  parse_auth_config node = do
    type ← text_field node "type" "Auth type is not found."
    robot_id ← text_field node "robot_id" "Robot id is not found."
    params ← parse_params node
    ok (record { type = type; robot_id = robot_id; params = params })

  unfoldable pub parse_server_config : Node → Outcome ServerConfig
  parse_server_config node = do
    ws_url ← text_field node "ws_url" "Server websocket url is not found."
    auth ← required node "auth" "Server auth config is not found."
    auth_config ← parse_auth_config auth
    webrtc ← required node "webrtc" "Server webrtc config is not found."
    webrtc_config ← parse_webrtc_config webrtc
    ok (record { ws_url = ws_url; auth_config = auth_config; webrtc_config = webrtc_config })

  unfoldable pub parse_connector_config : Node → Outcome ConnectorConfig
  parse_connector_config node = do
    type ← text_field node "type" "Connector type is not found."
    label ← text_field node "label" "Connector label is not found."
    params ← parse_params node
    ok (record { type = type; label = label; params = params })

  unfoldable pub parse_connector_configs : Node → Outcome MosaicConfig
  parse_connector_configs node = do
    server_node ← required node "server" "Server config is not found."
    server ← parse_server_config server_node
    list ← required node "connectors" "Connectors config is not found."
    connectors ← traverse parse_connector_config (yaml.items list)
    ok (record { server = server; connectors = connectors })

  unfoldable pub load_configs : String → Outcome MosaicConfig
  load_configs file_path = yaml.load_file file_path >>= parse_connector_configs
