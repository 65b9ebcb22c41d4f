-- ===== src/AutoConfigurer/Registered.antt =====
-- What include/mosaic/auto_configurer/connector/connector_resolver.hpp makes for a type.
use mosaic_core.Base.{
  String, ◌≡◌, refl, ◌∙◌, ap, none, some, List, [], ◌∷◌, ◌==◌, if◌then◌else◌, arith,
}
use mosaic_core.Base.Dict.{Dict, lookup, lookup-insert}
use mosaic_core.Exec.{Outcome, ok, throws, fault, ◌>>=◌}
use mosaic_core.AutoConfigurer.ConnectorResolver.{
  Made, Factory, factory_of, opencv_camera, connection_check, register_configurable_connector,
  register_class, connector_resolver, get_configurable_connector,
}

module _ {Connector : Type 0} where
  -- The map after a program has registered one factory after another, whatever they raised.
  abbrev pub registering :
      List (Factory Connector) → Dict (Factory Connector) → Dict (Factory Connector)
  registering [] m = m
  registering (f ∷ rest) m = registering rest (register_configurable_connector (some f) m).1

  abbrev if_named : String → Outcome String → Made Connector → Made Connector → Made Connector
  if_named type (ok t) new old = if t == type then new else old
  if_named type (throws e) new old = old
  if_named type fault new old = old

  -- What the last factory that names this type creates, or else `old`.
  abbrev pub latest : String → List (Factory Connector) → Made Connector → Made Connector
  latest type [] old = old
  latest type (f ∷ rest) old =
      latest type rest (if_named type f.get_connector_type f.create_connector old)

  register_lem :
      (type : String) (o : Outcome String) (f : Factory Connector) (m : Dict (Factory Connector))
      → f.get_connector_type ≡ o
      → get_configurable_connector type (register_configurable_connector (some f) m).1
        ≡ if_named type o f.create_connector (get_configurable_connector type m)
  unfolding register_configurable_connector get_configurable_connector
  register_lem type (ok t) f m e = ground (arith, lookup-insert t type f m)
  register_lem type (throws x) f m e = ground arith
  register_lem type fault f m e = ground arith

  -- The same behind any map.
  pub registering_lem :
      (type : String) (fs : List (Factory Connector)) (m : Dict (Factory Connector))
      → get_configurable_connector type (registering fs m)
        ≡ latest type fs (get_configurable_connector type m)
  registering_lem type [] m = refl
  registering_lem type (f ∷ rest) m =
      rw⁻¹ (register_lem type f.get_connector_type f m refl)
        (registering_lem type rest (register_configurable_connector (some f) m).1)

  abbrev built_in : Connector → Connector → String → Made Connector
  built_in camera check type =
      if "connection-check" == type
      then (λ n. ok (some check))
      else if "opencv-sender-camera" == type
      then (λ n. ok (some camera))
      else (λ n. ok none)

  -- Of the factories that a program registers for one type, the last one makes the connector, also
  -- for a type of the library's own; a factory whose `GetConnectorType` throws is not registered, and
  -- takes the place of none. A type that none of them names is one of the two of the library, or
  -- has no connector.
  pub connector_resolver_lem :
      (camera check : Connector) (type : String) (fs : List (Factory Connector))
      → get_configurable_connector type (registering fs (connector_resolver camera check []).1)
        ≡ latest type fs (built_in camera check type)
  unfolding connector_resolver register_class get_configurable_connector
      register_configurable_connector lookup ◌>>=◌
  connector_resolver_lem camera check type fs =
      registering_lem type fs (connector_resolver camera check []).1
      ∙ ap (latest type fs) (
          registering_lem type
            (factory_of (opencv_camera camera) ∷ factory_of (connection_check check) ∷ []) [])
