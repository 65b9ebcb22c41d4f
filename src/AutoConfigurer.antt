-- ===== src/AutoConfigurer.antt =====
-- src/auto_configurer/auto_configurer.cpp with src/auto_configurer/connector_resolver.cpp: from the
-- configuration to the registered handlers.
pub mod ConnectorResolver
pub mod Registered
pub mod Resolve
use mosaic_core.Base.{
  ℕ, suc, String, Bool, true, false, Option, none, some, List, [], ◌∷◌, ◌++◌, if◌then◌else◌,
}
use mosaic_core.Base.Dict.{Dict, lookup, insert}
use mosaic_core.Exec.{
  throw, Outcome, ok, throws, fault, Exec, pure, lift, gets, modify, deref, crash, ◌>>=◌, ◌>>◌,
}
use mosaic_core.Env.{Env}
use mosaic_core.Config.{ConnectorConfig, MosaicConfig}
use mosaic_core.WebSocket.{Task}
use mosaic_core.System.{System, Action}
use mosaic_core.Connector.{add_data_channel_handler, add_media_track_handler}
use mosaic_core.Factory.{fresh, create}

-- What a configured connector hands out: `GetHandler` or `GetHandlers` of the class that the
-- `dynamic_cast`s find, `none` for a null pointer; `other` for a class that they do not know.
pub data Extracted (env : Env) : Type 0 where
  data_channel : Option env.channels.Handler → Extracted env
  data_channels : List (Option env.channels.Handler) → Extracted env
  media_track : Option env.tracks.Handler → Extracted env
  other : Extracted env

-- The registered classes derived from `IConfigurableConnector`. `factories` is `factory_map_` with
-- what the call of each factory comes to for an entry, by the number of the entries before it: an object,
-- `none` for a null pointer, or an exception.
pub record Configurables (env : Env) : Type 1 where
  pub Connector : Type 0
  pub factories : Dict (ℕ → Outcome (Option Connector))
  pub set_config : ConnectorConfig → Connector → Connector
  pub validate_config : Exec Connector Unit
  pub configure : Exec Connector Unit
  pub extract : Connector → Extracted env

-- The members of `AutoConfigurer`, with the system behind `mosaic_connector_`. The two maps hold a
-- handler as it was when it was registered.
pub record Configurer (env : Env) (classes : Configurables env) : Type 0 where
  pub mosaic_config : MosaicConfig
  pub has_mosaic_connector : Bool
  pub system : System env
  pub configurable_connectors : List classes.Connector
  pub dc_handler_map : Dict env.channels.Handler
  pub mt_handler_map : Dict env.tracks.Handler

module _ (env : Env) (classes : Configurables env) where
  open env use {channels, tracks}
  open classes use {Connector}

  abbrev pub Step : Type 0 → Type 0
  Step A = Exec (Configurer env classes) A

  -- A connector whose configuration is refused is only written to the log.
  abbrev pub push_valid : Outcome {0} Unit → Connector → Step Unit
  push_valid (ok _) k =
      modify (λ a. record a { configurable_connectors = a.configurable_connectors ++ k ∷ [] })
  push_valid (throws e) k = pure tt
  push_valid fault k = crash

  abbrev pub with_config : ConnectorConfig → Outcome (Option Connector) → Step Unit
  with_config c (throws e) = throw e
  with_config c fault = crash
  with_config c (ok none) = pure tt
  with_config c (ok (some k)) =
      let (o, k') = classes.validate_config (classes.set_config c k) in push_valid o k'

  -- The factory is called outside of the `try`; a type that none is registered for is passed over.
  abbrev pub call_factory : ℕ → Option (ℕ → Outcome (Option Connector)) → Outcome (Option Connector)
  call_factory n none = ok none
  call_factory n (some create_connector) = create_connector n

  unfoldable pub resolve_connector : ℕ → ConnectorConfig → Step Unit
  unfolding throw
  resolve_connector n c = with_config c (call_factory n (lookup c.type classes.factories))

  unfoldable pub resolve_all : ℕ → List ConnectorConfig → Step Unit
  unfolding ◌>>=◌
  resolve_all n [] = pure tt
  resolve_all n (c ∷ rest) = resolve_connector n c >> resolve_all (suc n) rest

  unfoldable pub resolve_connectors : Step Unit
  unfolding ◌>>=◌
  resolve_connectors = do config ← gets (λ a. a.mosaic_config); resolve_all 0 config.connectors

  -- A call through `mosaic_connector_`.
  unfoldable pub on_connector : Action env Unit → Step Unit
  unfolding crash
  on_connector m a =
      if a.has_mosaic_connector
      then (let (o, s) = m a.system in (o, record a { system = s }))
      else crash a

  unfoldable pub register_data_channel : Option channels.Handler → Step Unit
  unfolding ◌>>=◌
  register_data_channel none = crash
  register_data_channel (some h) = do
    on_connector (add_data_channel_handler env h)
    modify (λ a. record a { dc_handler_map = insert (channels.get_label h) h a.dc_handler_map })

  unfoldable pub register_media_track : Option tracks.Handler → Step Unit
  unfolding ◌>>=◌
  register_media_track none = crash
  register_media_track (some t) = do
    on_connector (add_media_track_handler env t)
    modify (λ a. record a { mt_handler_map = insert (tracks.get_track_name t) t a.mt_handler_map })

  unfoldable pub register_all : List (Option channels.Handler) → Step Unit
  unfolding ◌>>=◌
  register_all [] = pure tt
  register_all (h ∷ rest) = register_data_channel h >> register_all rest

  -- Of the three kinds, only the first is tested for a null pointer.
  unfoldable pub register : Extracted env → Step Unit
  register (data_channel none) = pure tt
  register (data_channel (some h)) = register_data_channel (some h)
  register (data_channels hs) = register_all hs
  register (media_track t) = register_media_track t
  register other = pure tt

  -- The loop from the connector behind `done`; a connector that was configured stays in its place.
  unfoldable pub configure_from : List Connector → List Connector → Step Unit
  unfolding ◌>>=◌
  configure_from done [] = pure tt
  configure_from done (k ∷ rest) =
      let (o, k') = classes.configure k in
      do
        modify (λ a. record a { configurable_connectors = done ++ k' ∷ rest })
        lift o
        register (classes.extract k')
        configure_from (done ++ k' ∷ []) rest

  unfoldable pub configure_connectors : Step Unit
  unfolding ◌>>=◌
  configure_connectors = do
    connectors ← gets (λ a. a.configurable_connectors)
    configure_from [] connectors

  abbrev kept : Outcome Bool → Step Unit
  kept (ok made) a = (ok tt, record a { has_mosaic_connector = made })
  kept (throws e) a = (throws e, a)
  kept fault a = (fault, a)

  unfoldable pub create_mosaic_connector : Task → Step Unit
  create_mosaic_connector dial a =
      let server = a.mosaic_config.server in
      let (o, s) = create env server dial (fresh env server) in kept o (record a { system = s })

  -- `AutoConfigure` behind `ReadConfigs`; the two hooks are virtual.
  unfoldable pub auto_configure : Task → Step Unit → Step Unit → Step Unit
  unfolding ◌>>=◌
  auto_configure dial before_configure after_configure = do
    create_mosaic_connector dial
    resolve_connectors
    before_configure
    configure_connectors
    after_configure
