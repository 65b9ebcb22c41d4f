-- ===== src/Tests/Configurers.antt =====
-- The automatic configuration at a concrete class of connectors.
use mosaic_core.Base.{
  String, ◌≡◌, true, false, some, none, List, [], ◌∷◌, ◌==◌, if◌then◌else◌, arith,
}
use mosaic_core.Base.Dict.{Dict, lookup}
use mosaic_core.Exec.{Outcome, ok, throws, pure}
use mosaic_core.Env.{Env}
use mosaic_core.Config.{ConnectorConfig}
use mosaic_core.DataChannel.{new_handler}
use mosaic_core.System.{ready_to_connect}
use mosaic_core.AutoConfigurer.{Configurables, Configurer, data_channel, resolve_connectors}
use mosaic_core.AutoConfigurer.Resolve.{resolve_connectors_lem, Validates}
use mosaic_core.Python.Configurers.{Instance, PythonFactory}
use mosaic_core.AutoConfigurer.ConnectorResolver.{connector_resolver, get_configurable_connector}
use mosaic_core.AutoConfigurer.Registered.{registering, connector_resolver_lem}
use mosaic_core.Tests.Setup.{taking, cameras, surroundings, camera, at, server_config}

abbrev up : Env
up = surroundings taking cameras

abbrev entry_of : String → String → ConnectorConfig
entry_of type label = record { type = type; label = label; params = [] }

-- Connectors of one data channel, which want a label.
abbrev classes : Configurables up
classes = record {
  Connector = ConnectorConfig;
  factories = ("text", λ n. ok (some (entry_of "" ""))) ∷ ("broken", λ n. throws "no device") ∷ [];
  set_config = λ c k. c;
  validate_config = λ k. (if k.label == "" then throws "no label" else ok tt, k);
  configure = pure tt;
  extract = λ k. data_channel (some (new_handler k.label));
}

abbrev configurer : Configurer up classes
configurer = record {
  mosaic_config = record {
    server = server_config;
    connectors =
        entry_of "text" "a"
        ∷ entry_of "text" ""
        ∷ entry_of "video" "b"
        ∷ entry_of "text" "c"
        ∷ entry_of "broken" "d"
        ∷ entry_of "text" "e"
        ∷ [];
  };
  has_mosaic_connector = true;
  system = at taking cameras ready_to_connect false camera;
  configurable_connectors = [];
  dc_handler_map = [];
  mt_handler_map = [];
}

validates : Validates up classes
validates k = ground arith

resolve_connectors_lem_example : resolve_connectors up classes configurer ≡ (
  throws "no device",
  record configurer { configurable_connectors = entry_of "text" "a" ∷ entry_of "text" "c" ∷ [] },
)
unfolding lookup
resolve_connectors_lem_example = resolve_connectors_lem up classes configurer validates

-- A Python object without attributes of its own.
abbrev python_object : String → Instance up Unit
python_object label = record {
  self = tt;
  connector_config = none;
  held = data_channel (some (new_handler label));
}

abbrev factory : Outcome String → String → PythonFactory up Unit
factory type label = record {
  get_connector_type = type;
  create_connector = λ n. ok (some (python_object label));
}

abbrev registrations : List (PythonFactory up Unit)
registrations =
    factory (ok "lidar") "old" ∷ factory (ok "lidar") "new" ∷ factory (throws "no type") "lost" ∷ []

abbrev resolver : Dict (PythonFactory up Unit)
resolver = (connector_resolver (python_object "camera") (python_object "check") []).1

last_lidar :
    get_configurable_connector "lidar" (registering registrations resolver)
    ≡ (λ n. ok (some (python_object "new")))
last_lidar =
    connector_resolver_lem (python_object "camera") (python_object "check") "lidar" registrations
