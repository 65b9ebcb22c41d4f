-- ===== src/Config/Represents.antt =====
-- What a node of YAML must hold to stand for a configuration of
-- include/mosaic/configs_decl.hpp, said without the reader.
use mosaic_core.Base.{String, ◌≡◌, ◌⊎◌, true, false, List, [], ◌∷◌}
use mosaic_core.Exec.{ok}
use mosaic_core.Config.{
  Params, IceServerConfig, WebRtcConfig, AuthConfig, ConnectorConfig, ServerConfig, MosaicConfig,
}
use mosaic_core.Config.Reader.{Yaml, insert_all}

-- Two lists of the same length, related element by element.
abbrev pub Each : {A B : Type 0} → (A → B → Type 0) → List A → List B → Type 0
Each R [] [] = Unit
Each R [] (b ∷ bs) = ⊥
Each R (a ∷ rest) [] = ⊥
Each R (a ∷ rest) (b ∷ bs) = R a b × Each R rest bs

module _ (yaml : Yaml) where
  open yaml use {Node}

  -- The node has this key, and what stands there is as `R` says.
  abbrev pub NodeAt : Node → String → (Node → Type 0) → Type 0
  NodeAt node key R = (v : Node) × (yaml.get node key ≡ ok v) × (yaml.is_defined v ≡ true) × R v

  abbrev pub IsText : Node → String → Type 0
  IsText v s = yaml.as_string v ≡ ok s

  abbrev pub TextAt : Node → String → String → Type 0
  TextAt node key s = NodeAt node key (λ v. IsText v s)

  abbrev pub IsParam : Node × Node → String × String → Type 0
  IsParam (k, v) (key, value) = IsText k key × IsText v value

  -- No parameters, or pairs of texts, of which the last with a key stands.
  abbrev pub ParamsAt : Node → Params → Type 0
  ParamsAt node params =
      (v : Node) × (yaml.get node "params" ≡ ok v)
      × (((yaml.is_defined v ≡ false) × (params ≡ []))
          ⊎ ((yaml.is_defined v ≡ true)
              × ((ps : List (String × String)) × Each IsParam (yaml.fields v) ps
                  × (params ≡ insert_all ps []))))

  abbrev pub IsIceServer : Node → IceServerConfig → Type 0
  IsIceServer node c =
      NodeAt node "urls" (λ v. Each IsText (yaml.items v) c.urls)
      × TextAt node "username" c.username
      × TextAt node "credential" c.credential

  abbrev pub IsWebRtc : Node → WebRtcConfig → Type 0
  IsWebRtc node c = NodeAt node "ice_servers" (λ v. Each IsIceServer (yaml.items v) c.ice_servers)

  abbrev pub IsAuth : Node → AuthConfig → Type 0
  IsAuth node c =
      TextAt node "type" c.type × TextAt node "robot_id" c.robot_id × ParamsAt node c.params

  abbrev pub IsServer : Node → ServerConfig → Type 0
  IsServer node c =
      TextAt node "ws_url" c.ws_url
      × NodeAt node "auth" (λ v. IsAuth v c.auth_config)
      × NodeAt node "webrtc" (λ v. IsWebRtc v c.webrtc_config)

  abbrev pub IsConnector : Node → ConnectorConfig → Type 0
  IsConnector node c =
      TextAt node "type" c.type × TextAt node "label" c.label × ParamsAt node c.params

  abbrev pub IsMosaic : Node → MosaicConfig → Type 0
  IsMosaic node c =
      NodeAt node "server" (λ v. IsServer v c.server)
      × NodeAt node "connectors" (λ v. Each IsConnector (yaml.items v) c.connectors)
