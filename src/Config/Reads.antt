-- ===== src/Config/Reads.antt =====
-- src/config_reader/yaml_config_reader.cpp: each part of a configuration, from its node.
use mosaic_core.Base.{◌≡◌, ◌↔◌, arith}
use mosaic_core.Exec.{ok}
use mosaic_core.Exec.Fallible.{traverse}
use mosaic_core.Config.{
  IceServerConfig, WebRtcConfig, AuthConfig, ConnectorConfig, ServerConfig, MosaicConfig,
}
use mosaic_core.Config.Reader.{
  Yaml, required, text_field, parse_params, parse_ice_server, parse_ice_servers,
  parse_webrtc_config, parse_auth_config, parse_server_config, parse_connector_config,
  parse_connector_configs,
}
use mosaic_core.Config.Represents.{IsIceServer, IsWebRtc, IsAuth, IsServer, IsConnector, IsMosaic}
use mosaic_core.Config.Fields.{
  bind_ok, required_ok, required-ok, text_field_iff, texts_iff, parse_params_iff, traverse_iff,
}

module _ (yaml : Yaml) where
  open yaml use {Node}

  parse_ice_server_iff :
      (node : Node) (c : IceServerConfig)
      → (parse_ice_server yaml node ≡ ok c) ↔ IsIceServer yaml node c
  unfolding parse_ice_server
  parse_ice_server_iff node c = (
    λ h.
        let (list, found, h₁) = bind_ok (required yaml node "urls" _) _ c h in
        let (urls, e₁, h₂) = bind_ok (traverse yaml.as_string (yaml.items list)) _ c h₁ in
        let (name, e₂, h₃) = bind_ok (text_field yaml node "username" _) _ c h₂ in
        let (cred, e₃, h₄) = bind_ok (text_field yaml node "credential" _) _ c h₃ in
        let (got, here) = required_ok yaml node "urls" _ list found in
        (
          (list, got, here, (texts_iff yaml (yaml.items list) c.urls).0 (ground arith)),
          (text_field_iff yaml node "username" "Ice server username is not found." c.username).0
              (ground arith),
          (text_field_iff yaml node "credential" "Ice server credential is not found."
                c.credential).0
              (ground arith),
        ),
    λ ((list, got, here, r), n, k). ground (
      arith,
      required-ok yaml node "urls" "Ice server urls are not found." list got here,
      (texts_iff yaml (yaml.items list) c.urls).1 r,
      (text_field_iff yaml node "username" "Ice server username is not found." c.username).1 n,
      (text_field_iff yaml node "credential" "Ice server credential is not found." c.credential).1
          k,
    ),
  )

  parse_webrtc_config_iff :
      (node : Node) (c : WebRtcConfig)
      → (parse_webrtc_config yaml node ≡ ok c) ↔ IsWebRtc yaml node c
  unfolding parse_webrtc_config parse_ice_servers
  parse_webrtc_config_iff node c =
      let each : (list : Node) → _ = λ list.
        traverse_iff (parse_ice_server yaml) (IsIceServer yaml) parse_ice_server_iff
          (yaml.items list) c.ice_servers in
      (
        λ h.
            let (list, found, h₁) = bind_ok (required yaml node "ice_servers" _) _ c h in
            let (servers, e₁, h₂) = bind_ok (parse_ice_servers yaml list) _ c h₁ in
            let (got, here) = required_ok yaml node "ice_servers" _ list found in
            (list, got, here, (each list).0 (ground arith)),
        λ (list, got, here, r). ground (
          arith,
          required-ok yaml node "ice_servers" "WebRTC ice servers are not found." list got here,
          (each list).1 r,
        ),
      )

  parse_auth_config_iff :
      (node : Node) (c : AuthConfig) → (parse_auth_config yaml node ≡ ok c) ↔ IsAuth yaml node c
  unfolding parse_auth_config
  parse_auth_config_iff node c = (
    λ h.
        let (type, e₁, h₁) = bind_ok (text_field yaml node "type" _) _ c h in
        let (id, e₂, h₂) = bind_ok (text_field yaml node "robot_id" _) _ c h₁ in
        let (ps, e₃, h₃) = bind_ok (parse_params yaml node) _ c h₂ in
        (
          (text_field_iff yaml node "type" "Auth type is not found." c.type).0 (ground arith),
          (text_field_iff yaml node "robot_id" "Robot id is not found." c.robot_id).0
              (ground arith),
          (parse_params_iff yaml node c.params).0 (ground arith),
        ),
    λ (t, i, p). ground (
      arith,
      (text_field_iff yaml node "type" "Auth type is not found." c.type).1 t,
      (text_field_iff yaml node "robot_id" "Robot id is not found." c.robot_id).1 i,
      (parse_params_iff yaml node c.params).1 p,
    ),
  )

  parse_connector_config_iff :
      (node : Node) (c : ConnectorConfig)
      → (parse_connector_config yaml node ≡ ok c) ↔ IsConnector yaml node c
  unfolding parse_connector_config
  parse_connector_config_iff node c = (
    λ h.
        let (type, e₁, h₁) = bind_ok (text_field yaml node "type" _) _ c h in
        let (label, e₂, h₂) = bind_ok (text_field yaml node "label" _) _ c h₁ in
        let (ps, e₃, h₃) = bind_ok (parse_params yaml node) _ c h₂ in
        (
          (text_field_iff yaml node "type" "Connector type is not found." c.type).0 (ground arith),
          (text_field_iff yaml node "label" "Connector label is not found." c.label).0
              (ground arith),
          (parse_params_iff yaml node c.params).0 (ground arith),
        ),
    λ (t, l, p). ground (
      arith,
      (text_field_iff yaml node "type" "Connector type is not found." c.type).1 t,
      (text_field_iff yaml node "label" "Connector label is not found." c.label).1 l,
      (parse_params_iff yaml node c.params).1 p,
    ),
  )

  parse_server_config_iff :
      (node : Node) (c : ServerConfig)
      → (parse_server_config yaml node ≡ ok c) ↔ IsServer yaml node c
  unfolding parse_server_config
  parse_server_config_iff node c = (
    λ h.
        let (url, e₁, h₁) = bind_ok (text_field yaml node "ws_url" _) _ c h in
        let (auth, found, h₂) = bind_ok (required yaml node "auth" _) _ c h₁ in
        let (a, e₂, h₃) = bind_ok (parse_auth_config yaml auth) _ c h₂ in
        let (webrtc, found', h₄) = bind_ok (required yaml node "webrtc" _) _ c h₃ in
        let (w, e₃, h₅) = bind_ok (parse_webrtc_config yaml webrtc) _ c h₄ in
        let (got, here) = required_ok yaml node "auth" _ auth found in
        let (got', here') = required_ok yaml node "webrtc" _ webrtc found' in
        (
          (text_field_iff yaml node "ws_url" "Server websocket url is not found." c.ws_url).0
              (ground arith),
          (auth, got, here, (parse_auth_config_iff auth c.auth_config).0 (ground arith)),
          (webrtc, got', here', (parse_webrtc_config_iff webrtc c.webrtc_config).0 (ground arith)),
        ),
    λ (u, (auth, got, here, a), (webrtc, got', here', w)). ground (
      arith,
      (text_field_iff yaml node "ws_url" "Server websocket url is not found." c.ws_url).1 u,
      required-ok yaml node "auth" "Server auth config is not found." auth got here,
      (parse_auth_config_iff auth c.auth_config).1 a,
      required-ok yaml node "webrtc" "Server webrtc config is not found." webrtc got' here',
      (parse_webrtc_config_iff webrtc c.webrtc_config).1 w,
    ),
  )

  -- The reader gives a configuration for exactly the nodes that stand for it: the required keys
  -- are there with texts, every server and connector of the lists is read in its order, and of the
  -- parameters with one key the last stands. On any other node it gives none.
  pub parse_connector_configs_iff :
      (node : Node) (c : MosaicConfig)
      → (parse_connector_configs yaml node ≡ ok c) ↔ IsMosaic yaml node c
  unfolding parse_connector_configs
  parse_connector_configs_iff node c =
      let each : (list : Node) → _ = λ list.
        traverse_iff (parse_connector_config yaml) (IsConnector yaml) parse_connector_config_iff
          (yaml.items list) c.connectors in
      (
        λ h.
            let (server, found, h₁) = bind_ok (required yaml node "server" _) _ c h in
            let (s, e₁, h₂) = bind_ok (parse_server_config yaml server) _ c h₁ in
            let (list, found', h₃) = bind_ok (required yaml node "connectors" _) _ c h₂ in
            let (cs, e₂, h₄) =
              bind_ok (traverse (parse_connector_config yaml) (yaml.items list)) _ c h₃ in
            let (got, here) = required_ok yaml node "server" _ server found in
            let (got', here') = required_ok yaml node "connectors" _ list found' in
            (
              (server, got, here, (parse_server_config_iff server c.server).0 (ground arith)),
              (list, got', here', (each list).0 (ground arith)),
            ),
        λ ((server, got, here, s), (list, got', here', r)). ground (
          arith,
          required-ok yaml node "server" "Server config is not found." server got here,
          (parse_server_config_iff server c.server).1 s,
          required-ok yaml node "connectors" "Connectors config is not found." list got' here',
          (each list).1 r,
        ),
      )
