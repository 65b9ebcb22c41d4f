-- ===== src/AutoConfigurer/ConnectorResolver.antt =====
-- src/auto_configurer/connector_resolver.cpp with connector/connector_resolver.hpp and
-- configurable_connector_factory.hpp of include/mosaic/auto_configurer: which class makes a connector.
use mosaic_core.Base.{ℕ, String, Bool, true, false, Option, none, some}
use mosaic_core.Base.Dict.{Dict, lookup, insert}
use mosaic_core.Exec.{Outcome, ok, Exec, lift, modify, crash, ◌>>=◌, ◌>>◌}

-- What `CreateConnector` comes to, by the number of the entry that it is called for: a connector, `none`
-- for a null pointer, or an exception.
abbrev pub Made : Type 0 → Type 0
Made Connector = ℕ → Outcome (Option Connector)

-- An `IConfigurableConnectorFactory`: the type it names, or what it throws, and what it creates.
pub record Factory (Connector : Type 0) : Type 0 where
  pub get_connector_type : Outcome String
  pub create_connector : Made Connector

-- A class of connectors: what its `GetConnectorType` returns and what its default constructor makes.
pub record Class (Connector : Type 0) : Type 0 where
  pub connector_type : String
  pub make : Connector

module _ {Connector : Type 0} where
  -- `ConfigurableConnectorFactory<T>`
  abbrev pub factory_of : Class Connector → Factory Connector
  factory_of t = record {
    get_connector_type = ok t.connector_type;
    create_connector = λ n. ok (some t.make);
  }

  abbrev created : Option (Factory Connector) → Made Connector
  created none = λ n. ok none
  created (some f) = f.create_connector

  -- `RegisterConfigurableConnector` of a pointer, on `factory_map_`.
  unfoldable pub register_configurable_connector :
      Option (Factory Connector) → Exec (Dict (Factory Connector)) Unit
  unfolding crash ◌>>=◌
  register_configurable_connector none = crash
  register_configurable_connector (some f) = do
    type ← lift f.get_connector_type
    modify (insert type f)

  -- `RegisterConfigurableConnector<T>`
  unfoldable pub register_class : Class Connector → Exec (Dict (Factory Connector)) Unit
  unfolding register_configurable_connector
  register_class t = register_configurable_connector (some (factory_of t))

  abbrev is_some : Option (Factory Connector) → Bool
  is_some none = false
  is_some (some f) = true

  unfoldable pub is_supported_connector_type : String → Dict (Factory Connector) → Bool
  is_supported_connector_type type m = is_some (lookup type m)

  unfoldable pub get_configurable_connector : String → Dict (Factory Connector) → Made Connector
  get_configurable_connector type m = created (lookup type m)

  abbrev pub opencv_camera : Connector → Class Connector
  opencv_camera camera = record { connector_type = "opencv-sender-camera"; make = camera }

  abbrev pub connection_check : Connector → Class Connector
  connection_check check = record { connector_type = "connection-check"; make = check }

  -- The constructor of `ConnectorResolver`; the arguments are what the two classes construct.
  unfoldable pub connector_resolver : Connector → Connector → Exec (Dict (Factory Connector)) Unit
  unfolding register_class ◌>>=◌
  connector_resolver camera check = do
    register_class (opencv_camera camera)
    register_class (connection_check check)
