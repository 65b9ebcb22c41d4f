-- ===== src/Tests/Documents.antt =====
-- The reader at a concrete document.
use mosaic_core.Base.{◌≡◌, ◌↔◌, refl, Bool, true, false, String, List, [], ◌∷◌, ◌==◌, if◌then◌else◌}
use mosaic_core.Exec.{Outcome, ok, throws}
use mosaic_core.Config.{MosaicConfig}
use mosaic_core.Base.Dict.{insert}
use mosaic_core.Exec.Fallible.{traverse}
use mosaic_core.Config.Reader.{
  Yaml, parse_connector_configs, parse_server_config, parse_auth_config, parse_webrtc_config,
  parse_ice_servers, parse_ice_server, parse_connector_config, parse_params, parse_param,
  text_field, required,
}
use mosaic_core.Config.Represents.{IsMosaic}
use mosaic_core.Config.Reads.{parse_connector_configs_iff}

-- A scalar, or a map or a list as its first entry and the rest.
data Node : Type 0 where
  missing : Node
  empty : Node
  scalar : String → Node
  entry : String → Node → Node → Node
  item : Node → Node → Node

abbrev find : Node → String → Outcome Node
find missing key = throws "invalid node"
find empty key = ok missing
find (scalar s) key = throws "bad subscript"
find (entry k v rest) key = let found = find rest key in if k == key then ok v else found
find (item v rest) key = ok missing

abbrev is_defined : Node → Bool
is_defined missing = false
is_defined _ = true

abbrev text_of : Node → Outcome String
text_of (scalar s) = ok s
text_of _ = throws "bad conversion"

abbrev items_of : Node → List Node
items_of (item v rest) = v ∷ items_of rest
items_of _ = []

abbrev fields_of : Node → List (Node × Node)
fields_of (entry k v rest) = (scalar k, v) ∷ fields_of rest
fields_of _ = []

abbrev servers : Node
servers =
    item
      (entry "urls" (item (scalar "a:3478") (item (scalar "b:3478") empty))
        (entry "username" (scalar "u") (entry "credential" (scalar "p") empty)))
      empty

abbrev document : Node
document =
    entry "server"
      (entry "ws_url" (scalar "ws://x") (
        entry "auth"
          (entry "type" (scalar "no-authorization") (entry "robot_id" (scalar "r1") empty))
          (entry "webrtc" (entry "ice_servers" servers empty) empty)))
      (entry "connectors"
        (item
          (entry "type" (scalar "t") (
            entry "label" (scalar "l") (
              entry "params"
                (entry "k" (scalar "1") (entry "j" (scalar "2") (entry "k" (scalar "3") empty)))
                empty)))
          empty)
        empty)

abbrev yaml : Yaml
yaml = record {
  Node = Node;
  load_file = λ path. ok document;
  get = find;
  is_defined = is_defined;
  as_string = text_of;
  items = items_of;
  fields = fields_of;
}

abbrev config : MosaicConfig
config = record {
  server = record {
    ws_url = "ws://x";
    auth_config = record { type = "no-authorization"; robot_id = "r1"; params = [] };
    webrtc_config = record {
      ice_servers =
          record { urls = "a:3478" ∷ "b:3478" ∷ []; username = "u"; credential = "p" } ∷ [];
    };
  };
  connectors = record { type = "t"; label = "l"; params = ("j", "2") ∷ ("k", "3") ∷ [] } ∷ [];
}

parse_connector_configs_iff_example :
    (parse_connector_configs yaml document ≡ ok config) ↔ IsMosaic yaml document config
parse_connector_configs_iff_example = parse_connector_configs_iff yaml document config

reads : parse_connector_configs yaml document ≡ ok config
unfolding parse_connector_configs parse_server_config parse_auth_config parse_webrtc_config
    parse_ice_servers parse_ice_server parse_connector_config parse_params parse_param text_field
    required traverse insert
reads = refl
