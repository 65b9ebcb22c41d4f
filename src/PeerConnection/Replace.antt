-- ===== src/PeerConnection/Replace.antt =====
-- `HandleSdpOffer` of src/core/peer_connection_manager.cpp while there is a connection.
use mosaic_core.Base.{sym, List, ◌≡◌, ◌∙◌, ap, true, false, ◌∷◌, map, arith, ◌||◌, if◌then◌else◌}
use mosaic_core.Exec.{ok}
use mosaic_core.Config.{WebRtcConfig}
use mosaic_core.Env.{IceServer, Env, Call, close, create_peer_connection, set_remote_description}
use mosaic_core.System.{System, rtc_connecting, rtc_connected, rtc_failed}
use mosaic_core.StateManager.{state_of, is_state}
use mosaic_core.StateManager.Report.{Reliable, Linked}
use mosaic_core.PeerConnection.{close_peer_connection, handle_sdp_offer, get_ice_server}
use mosaic_core.PeerConnection.Release.{Closing}
use mosaic_core.PeerConnection.Close.{close_active, close_active_rest}
use mosaic_core.PeerConnection.Offer.{grants, offer_asks, AllGiven, map-AllGiven}

module _ (env : Env) where
  open env use {rtc}

  closes_first :
      (s : System env) (sdp : rtc.Sdp)
      → s.owner.peer.has_peer_connection ≡ true
      → (close_peer_connection env s).0 ≡ ok tt
      → (close_peer_connection env s).1.owner.peer.has_peer_connection ≡ false
      → handle_sdp_offer env sdp s ≡ handle_sdp_offer env sdp (close_peer_connection env s).1
  unfolding handle_sdp_offer
  closes_first s sdp has closed gone = ground arith

  replaces_asks :
      (c : Closing env) (s : System env) (sdp : rtc.Sdp)
      → Reliable env.net
      → Linked s
      → (is_state env rtc_connected s || is_state env rtc_connecting s) ≡ true
      → s.owner.peer.has_peer_connection ≡ true
      → s.owner.peer.has_factory ≡ true
      → let s' = (handle_sdp_offer env sdp s).1 in
        let granted = grants env (close_peer_connection env s).1 in
        let asked = create_peer_connection (map get_ice_server s.owner.peer.config.ice_servers) in
        ((handle_sdp_offer env sdp s).0 ≡ ok tt)
        × (s'.owner.peer.has_peer_connection ≡ granted)
        × (state_of env s' ≡ (if granted then rtc_connecting else rtc_failed))
        × (s'.owner.peer.calls ≡ (
            if granted
            then set_remote_description sdp ∷ asked ∷ close ∷ s.owner.peer.calls
            else asked ∷ close ∷ s.owner.peer.calls))
  replaces_asks c s sdp r l active has factory =
      let s₁ = (close_peer_connection env s).1 in
      let (done, ready, gone, logged, _, _) = close_active env c s r l active in
      let (l₁, factory₁, config₁) = close_active_rest env c s r l active in
      let same = closes_first s sdp has done gone in
      let (o, has', state', calls', _) =
        offer_asks env s₁ sdp r l₁ ready gone (factory₁ ∙ factory) in
      let ask : WebRtcConfig → Call rtc.Sdp rtc.Candidate =
        λ w. create_peer_connection (map get_ice_server w.ice_servers) in
      let asked : ask s₁.owner.peer.config ≡ ask s.owner.peer.config = ap ask config₁ in
      rw same (o, has', state', ground arith)

  -- An offer that comes while there is a connection, in RTC_CONNECTED or RTC_CONNECTING, replaces
  -- it: the old connection is closed, a new one is asked for with a server for each configured one, read
  -- as a server of TURN, which is empty where urls, user name or credential are missing, and the
  -- offer is handed to it in RTC_CONNECTING; if WebRTC gives none, the state is RTC_FAILED. The
  -- handlers are taken to close, and the network to accept every frame.
  pub offer_replaces :
      (c : Closing env) (s : System env) (sdp : rtc.Sdp)
      → Reliable env.net
      → Linked s
      → (is_state env rtc_connected s || is_state env rtc_connecting s) ≡ true
      → s.owner.peer.has_peer_connection ≡ true
      → s.owner.peer.has_factory ≡ true
      → let s' = (handle_sdp_offer env sdp s).1 in
        (servers : List IceServer) × AllGiven s.owner.peer.config.ice_servers servers
        × ((handle_sdp_offer env sdp s).0 ≡ ok tt)
        × (s'.owner.peer.has_peer_connection
            ≡ rtc.creates_peer_connection (close ∷ s.owner.peer.calls) servers)
        × (state_of env s' ≡ (
            if rtc.creates_peer_connection (close ∷ s.owner.peer.calls) servers
            then rtc_connecting
            else rtc_failed))
        × (s'.owner.peer.calls ≡ (
            if rtc.creates_peer_connection (close ∷ s.owner.peer.calls) servers
            then set_remote_description sdp
              ∷ create_peer_connection servers
              ∷ close
              ∷ s.owner.peer.calls
            else create_peer_connection servers ∷ close ∷ s.owner.peer.calls))
  offer_replaces c s sdp r l active has factory =
      let cs = s.owner.peer.config.ice_servers in
      let (_, _, _, logged, _, _) = close_active env c s r l active in
      let (_, _, config₁) = close_active_rest env c s r l active in
      let s₁ = (close_peer_connection env s).1 in
      let (o, has', state, calls) = replaces_asks c s sdp r l active has factory in
      let same : grants env s₁
          ≡ rtc.creates_peer_connection (close ∷ s.owner.peer.calls) (map get_ice_server cs) =
        ground arith in
      (
        map get_ice_server cs,
        map-AllGiven cs,
        o,
        has' ∙ same,
        rw (sym same) state,
        rw (sym same) calls,
      )
