-- ===== src/AutoConfigurer/Resolve.antt =====
-- Which connectors of the configuration are used, and what two handlers of one name come to
-- (src/auto_configurer/auto_configurer.cpp).
use mosaic_core.Base.{
  ℕ, suc, ◌≡◌, ◌≢◌, refl, sym, true, Option, none, some, List, [], ◌∷◌, ◌++◌, arith, append_assoc,
  append-nil, eq_iff,
}
use mosaic_core.Base.Dict.{Dict, lookup, insert, lookup-insert}
use mosaic_core.Exec.{Outcome, ok, throws, fault, pure, modify, throw, crash}
use mosaic_core.Env.{Env}
use mosaic_core.Config.{ConnectorConfig}
use mosaic_core.Connector.{add_data_channel_handler}
use mosaic_core.AutoConfigurer.{
  Configurables, Configurer, data_channel, resolve_connector, resolve_all, resolve_connectors,
  push_valid, with_config, call_factory, on_connector, register_data_channel, register,
}

module _ (env : Env) (classes : Configurables env) where
  open env use {channels}
  open classes use {Connector}

  abbrev if_valid : Outcome {0} Unit → Connector → List Connector
  if_valid (ok _) k = k ∷ []
  if_valid (throws e) k = []
  if_valid fault k = []

  abbrev if_made : ConnectorConfig → Outcome (Option Connector) → List Connector
  if_made c (throws e) = []
  if_made c fault = []
  if_made c (ok none) = []
  if_made c (ok (some k)) =
      let (o, k') = classes.validate_config (classes.set_config c k) in if_valid o k'

  -- What the factory of one entry comes to, behind `n` entries.
  abbrev pub outcome : ℕ → ConnectorConfig → Outcome (Option Connector)
  outcome n c = call_factory env classes n (lookup c.type classes.factories)

  -- What is added for the entries: nothing for one that no factory knows or whose connector refuses the
  -- configuration, and nothing behind one whose factory throws.
  abbrev behind : Outcome (Option Connector) → List Connector → List Connector
  behind (ok _) rest = rest
  behind _ rest = []

  abbrev pub all_usable : ℕ → List ConnectorConfig → List Connector
  all_usable n [] = []
  all_usable n (c ∷ rest) =
      if_made c (outcome n c) ++ behind (outcome n c) (all_usable (suc n) rest)

  -- How the loop ends: as the first factory that does not return.
  abbrev before : Outcome (Option Connector) → Outcome {0} Unit → Outcome {0} Unit
  before (ok _) rest = rest
  before (throws e) rest = throws e
  before fault rest = fault

  abbrev pub ending : ℕ → List ConnectorConfig → Outcome {0} Unit
  ending n [] = ok tt
  ending n (c ∷ rest) = before (outcome n c) (ending (suc n) rest)

  -- `ValidateConfig` may throw, and does nothing worse.
  abbrev pub Validates : Type 0
  Validates = (k : Connector) → (classes.validate_config k).0 ≢ fault

  push_valid_lem :
      (o : Outcome {0} Unit) (k : Connector) (a : Configurer env classes)
      → o ≢ fault
      → push_valid env classes o k a
        ≡ (ok tt, record a { configurable_connectors = a.configurable_connectors ++ if_valid o k })
  unfolding modify pure
  push_valid_lem (ok _) k a h = refl
  push_valid_lem (throws e) k a h = ground (arith, append-nil a.configurable_connectors)
  push_valid_lem fault k a h = absurd (h refl)

  added : List Connector → Configurer env classes → Configurer env classes
  added ks a = record a { configurable_connectors = a.configurable_connectors ++ ks }

  with_config_lem :
      (c : ConnectorConfig) (m : Outcome (Option Connector)) (a : Configurer env classes)
      → Validates
      → with_config env classes c m a ≡ (before m (ok tt), added (if_made c m) a)
  unfolding pure throw crash added
  with_config_lem c (throws e) a v = ground (arith, append-nil a.configurable_connectors)
  with_config_lem c fault a v = ground (arith, append-nil a.configurable_connectors)
  with_config_lem c (ok none) a v = ground (arith, append-nil a.configurable_connectors)
  with_config_lem c (ok (some k)) a v =
      let (o, k') = classes.validate_config (classes.set_config c k) in
      push_valid_lem o k' a (v (classes.set_config c k))

  resolve_connector_lem :
      (n : ℕ) (c : ConnectorConfig) (a : Configurer env classes)
      → Validates
      → resolve_connector env classes n c a
        ≡ (before (outcome n c) (ok tt), added (if_made c (outcome n c)) a)
  unfolding resolve_connector
  resolve_connector_lem n c a v = with_config_lem c (outcome n c) a v

  -- One more entry in front, by what its factory comes to.
  step_lem :
      (n : ℕ) (c : ConnectorConfig) (rest : List ConnectorConfig) (m : Outcome (Option Connector))
      (a : Configurer env classes)
      → outcome n c ≡ m
      → Validates
      → ((a₁ : Configurer env classes)
          → resolve_all env classes (suc n) rest a₁
            ≡ (ending (suc n) rest, added (all_usable (suc n) rest) a₁))
      → resolve_all env classes n (c ∷ rest) a
        ≡ (ending n (c ∷ rest), added (all_usable n (c ∷ rest)) a)
  unfolding resolve_all added
  step_lem n c rest (ok k) a e v h = ground (
    arith,
    resolve_connector_lem n c a v,
    h (added (if_made c (outcome n c)) a),
    append_assoc a.configurable_connectors (if_made c (outcome n c)) (all_usable (suc n) rest),
  )
  step_lem n c rest (throws x) a e v h =
      ground (arith, resolve_connector_lem n c a v, append-nil (if_made c (outcome n c)))
  step_lem n c rest fault a e v h =
      ground (arith, resolve_connector_lem n c a v, append-nil (if_made c (outcome n c)))

  resolve_all_lem :
      (n : ℕ) (cs : List ConnectorConfig) (a : Configurer env classes)
      → Validates
      → resolve_all env classes n cs a ≡ (ending n cs, added (all_usable n cs) a)
  unfolding resolve_all added
  resolve_all_lem n [] a v = ground (arith, append-nil a.configurable_connectors)
  resolve_all_lem n (c ∷ rest) a v =
      step_lem n c rest (outcome n c) a refl v (λ a₁. resolve_all_lem (suc n) rest a₁ v)

  -- Resolving goes through the list until a factory throws, whatever entries are refused by
  -- `ValidateConfig` or have a type without a factory, adds the connectors of the entries before that
  -- in their order, and ends as the factory that threw or, if none did, returns. `ValidateConfig` is
  -- taken to do no worse than throw.
  pub resolve_connectors_lem :
      (a : Configurer env classes)
      → Validates
      → resolve_connectors env classes a ≡ (
        ending 0 a.mosaic_config.connectors,
        record a {
          configurable_connectors =
              a.configurable_connectors ++ all_usable 0 a.mosaic_config.connectors;
        },
      )
  unfolding resolve_connectors added
  resolve_connectors_lem a v = ground (arith, resolve_all_lem 0 a.mosaic_config.connectors a v)

  handlers_of : Configurer env classes → Dict channels.Handler
  handlers_of a = a.system.owner.connector.data_channel_handlers

  register_new :
      (h : channels.Handler) (a : Configurer env classes)
      → a.has_mosaic_connector ≡ true
      → lookup (channels.get_label h) (handlers_of a) ≡ none
      → let a' = (register_data_channel env classes (some h) a).1 in
        (handlers_of a' ≡ insert (channels.get_label h) h (handlers_of a))
        × (a'.has_mosaic_connector ≡ true)
  unfolding handlers_of register_data_channel on_connector add_data_channel_handler
  register_new h a has new = ground arith

  register_taken :
      (h g : channels.Handler) (a : Configurer env classes)
      → a.has_mosaic_connector ≡ true
      → lookup (channels.get_label h) (handlers_of a) ≡ some g
      → let a' = (register_data_channel env classes (some h) a).1 in
        (handlers_of a' ≡ handlers_of a)
        × (a'.dc_handler_map ≡ insert (channels.get_label h) h a.dc_handler_map)
  unfolding handlers_of register_data_channel on_connector add_data_channel_handler
  register_taken h g a has taken = ground arith

  -- Of two data channel handlers with one label, of which the connector had none, the connector
  -- keeps the first and the map of the configurer the second.
  pub same_label :
      (h₁ h₂ : channels.Handler) (a : Configurer env classes)
      → a.has_mosaic_connector ≡ true
      → channels.get_label h₁ ≡ channels.get_label h₂
      → lookup (channels.get_label h₁) a.system.owner.connector.data_channel_handlers ≡ none
      → let a₁ = (register env classes (data_channel (some h₁)) a).1 in
        let a₂ = (register env classes (data_channel (some h₂)) a₁).1 in
        (lookup (channels.get_label h₁) a₂.system.owner.connector.data_channel_handlers ≡ some h₁)
        × (lookup (channels.get_label h₁) a₂.dc_handler_map ≡ some h₂)
  unfolding register handlers_of
  same_label h₁ h₂ a has same new =
      let a₁ = (register_data_channel env classes (some h₁) a).1 in
      let l = channels.get_label h₁ in
      let (first, has₁) = register_new h₁ a has new in
      let found : lookup l (handlers_of a₁) ≡ some h₁ =
        ground (arith, lookup-insert l l h₁ (handlers_of a), eq_iff l l) in
      let (kept, mapped) = register_taken h₂ h₁ a₁ has₁ (rw (sym same) found) in
      (
        ground arith,
        ground (
          arith,
          lookup-insert (channels.get_label h₂) l h₂ a₁.dc_handler_map,
          eq_iff (channels.get_label h₂) l,
        ),
      )
