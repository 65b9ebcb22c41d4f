-- ===== src/Python/Configurers.antt =====
-- python/bindings/bind_auto_configurer.cpp with the registration of
-- include/mosaic/auto_configurer/connector/connector_resolver.hpp: connectors and configurers that a
-- Python program defines.
pub mod Registered
use mosaic_core.Base.{
  String, ◌≡◌, refl, Bool, true, false, Option, none, some, List, [], ◌∷◌, ◌++◌, map, if◌then◌else◌,
}
use mosaic_core.Base.Dict.{Dict, lookup, insert}
use mosaic_core.Exec.{
  Outcome, ok, throws, Exec, throw, pure, lift, gets, modify, crash, ◌>>=◌, ◌>>◌,
}
use mosaic_core.Env.{Env}
use mosaic_core.Config.{ConnectorConfig}
use mosaic_core.Config.Reader.{Yaml}
use mosaic_core.Config.Resolver.{read_configs}
use mosaic_core.WebSocket.{Task}
use mosaic_core.AutoConfigurer.ConnectorResolver.{Made, Factory, register_configurable_connector}
use mosaic_core.AutoConfigurer.{
  Extracted, data_channel, data_channels, media_track, Configurables, Configurer, Step,
  auto_configure, create_mosaic_connector, resolve_connectors, configure_connectors,
}

-- An object of a Python class that is derived from a trampoline: what Python keeps in it, and the
-- members of the C++ class. `held` is `handler_` or `handlers_`, by the class.
pub record Instance (env : Env) (Self : Type 0) : Type 0 where
  pub self : Self
  pub connector_config : Option ConnectorConfig
  pub held : Extracted env

-- The methods of the Python class; what they raise is an exception in C++.
pub record Methods (env : Env) (Self : Type 0) : Type 0 where
  pub get_connector_type : Instance env Self → Outcome String
  pub validate_config : Exec (Instance env Self) Unit
  pub configure : Exec (Instance env Self) Unit

-- An object of a Python class derived from `IConfigurableConnectorFactory`: what
-- `get_connector_type` returns or raises, and what `create_connector` does, `none` for `None`.
abbrev pub PythonFactory : Env → Type 0 → Type 0
PythonFactory env Self = Factory (Instance env Self)

abbrev no_config : ConnectorConfig
no_config = record { type = ""; label = ""; params = [] }

abbrev config_or_default : Option ConnectorConfig → ConnectorConfig
config_or_default none = no_config
config_or_default (some c) = c

module _ {env : Env} {Self : Type 0} where
  open env use {channels, tracks}

  unfoldable pub set_config : ConnectorConfig → Instance env Self → Instance env Self
  set_config c k = record k { connector_config = some c }

  unfoldable pub get_config : Instance env Self → ConnectorConfig
  get_config k = config_or_default k.connector_config

  -- `set_handler` and `set_handlers` of the three classes.
  unfoldable pub set_dc_handler : Option channels.Handler → Exec (Instance env Self) Unit
  unfolding modify
  set_dc_handler h = modify (λ k. record k { held = data_channel h })

  unfoldable pub set_mt_handler : Option tracks.Handler → Exec (Instance env Self) Unit
  unfolding modify
  set_mt_handler t = modify (λ k. record k { held = media_track t })

  unfoldable pub set_handlers : List (Option channels.Handler) → Exec (Instance env Self) Unit
  unfolding modify
  set_handlers hs = modify (λ k. record k { held = data_channels hs })

  abbrev made : Dict (PythonFactory env Self) → Dict (Made (Instance env Self))
  made m = map (λ e. (e.0, e.1.create_connector)) m

  -- The trampolines, as the classes that the configurer knows.
  abbrev pub python_classes : Methods env Self → Dict (PythonFactory env Self) → Configurables env
  python_classes methods m = record {
    Connector = Instance env Self;
    factories = made m;
    set_config = set_config;
    validate_config = methods.validate_config;
    configure = methods.configure;
    extract = λ k. k.held;
  }

module _ (env : Env) (classes : Configurables env) where
  -- `dynamic_cast<PyAutoConfigurer&>(self)`: pybind11 makes a `PyAutoConfigurer` for an object of a
  -- Python subclass, which the Boolean says, and the cast of a plain `AutoConfigurer` throws.
  abbrev cast_to_configurer : {A : Type 0} → Bool → Step env classes A → Step env classes A
  cast_to_configurer true m = m
  cast_to_configurer false m = throw "std::bad_cast"

  unfoldable pub add_configurable_connector : Bool → classes.Connector → Step env classes Unit
  unfolding modify throw
  add_configurable_connector python k =
      cast_to_configurer python
        (modify (λ a. record a { configurable_connectors = a.configurable_connectors ++ k ∷ [] }))

  -- The properties `configurable_connectors`, `dc_handler_map` and `mt_handler_map`.
  unfoldable get_connectors : Bool → Step env classes (List classes.Connector)
  unfolding gets throw
  get_connectors python = cast_to_configurer python (gets (λ a. a.configurable_connectors))

  unfoldable get_dc_handler_map : Bool → Step env classes (Dict env.channels.Handler)
  unfolding gets throw
  get_dc_handler_map python = cast_to_configurer python (gets (λ a. a.dc_handler_map))

  unfoldable get_mt_handler_map : Bool → Step env classes (Dict env.tracks.Handler)
  unfolding gets throw
  get_mt_handler_map python = cast_to_configurer python (gets (λ a. a.mt_handler_map))

  -- A connector that a Python subclass adds is the last of its connectors; on a plain
  -- `AutoConfigurer` the call throws and adds nothing.
  add_configurable_connector_lem :
      (python : Bool) (k : classes.Connector) (a : Configurer env classes)
      → let a' = (add_configurable_connector python k a).1 in
        ((get_connectors python a').0
          ≡ (if python then ok (a.configurable_connectors ++ k ∷ []) else throws "std::bad_cast"))
        × (a'.configurable_connectors
            ≡ (if python then a.configurable_connectors ++ k ∷ [] else a.configurable_connectors))
  unfolding add_configurable_connector get_connectors
  add_configurable_connector_lem true k a = (refl, refl)
  add_configurable_connector_lem false k a = (refl, refl)

-- The hooks are `BeforeConfigure` and `AfterConfigure`.
module _ (env : Env) (classes : Configurables env) (path_extension : String → String)
    (yaml : Yaml) where
  -- `ReadConfigs`, which keeps what the reader of the file gives.
  unfoldable pub keep_configs : String → Step env classes Unit
  unfolding ◌>>=◌
  keep_configs file_path = do
    config ← lift (read_configs path_extension yaml file_path)
    modify (λ a. record a { mosaic_config = config })

  -- `AutoConfigure` of src/auto_configurer/auto_configurer.cpp.
  unfoldable pub auto_configure_file :
      String → Task → Step env classes Unit → Step env classes Unit → Step env classes Unit
  unfolding keep_configs ◌>>=◌
  auto_configure_file file_path dial before_configure after_configure = do
    keep_configs file_path
    auto_configure env classes dial before_configure after_configure

  -- `auto_configure` of the Python class: the steps one by one for a Python subclass, whose hooks are
  -- Python methods, and `AutoConfigure` for an object of C++, with its own hooks.
  unfoldable pub python_auto_configure :
      Bool → String → Task → Step env classes Unit → Step env classes Unit → Step env classes Unit
  unfolding keep_configs auto_configure_file ◌>>=◌
  python_auto_configure true file_path dial before_configure after_configure = do
    keep_configs file_path
    create_mosaic_connector env classes dial
    resolve_connectors env classes
    before_configure
    configure_connectors env classes
    after_configure
  python_auto_configure false file_path dial before_configure after_configure =
      auto_configure_file file_path dial before_configure after_configure
