-- ===== src/PeerConnection/Offer.antt =====
-- `HandleSdpOffer` of src/core/peer_connection_manager.cpp, and the state RTC_FAILED.
use mosaic_core.Base.{
  ◌≡◌, ◌≢◌, ap, ◌∙◌, Bool, true, false, ◌∷◌, map, arith, ◌||◌, if◌then◌else◌, String, ◌==◌, ◌<>◌,
  List, [], Bool-cases, inl, inr, eq_iff, refl,
}
use mosaic_core.Exec.{ok}
use mosaic_core.Config.{IceServerConfig}
use mosaic_core.Env.{IceServer, Env, create_peer_connection, set_remote_description}
use mosaic_core.System.{System, PeerConnectionManager, ready_to_connect, rtc_connecting, rtc_failed}
use mosaic_core.StateManager.{set_state, state_of}
use mosaic_core.StateManager.Report.{
  Reliable, Linked, set_state-SetTo, set_state-Linked, set_state_ok,
}
use mosaic_core.PeerConnection.{
  open_peer_connection, accept_offer, handle_sdp_offer, get_ice_server,
}

abbrev nothing : IceServer
nothing = record { urls = []; username = ""; password = "" }

-- A configured server and the one that WebRTC is given for it: with urls, a user name and a
-- credential each url is read as one of TURN, and otherwise nothing of the server is left.
pub data Given (c : IceServerConfig) : IceServer → Type 0 where
  turn :
      c.urls ≢ []
      → c.username ≢ ""
      → c.credential ≢ ""
      → Given c (record {
        urls = map (λ u. "turn:" <> u) c.urls;
        username = c.username;
        password = c.credential;
      })
  no_urls : c.urls ≡ [] → Given c nothing
  no_username : c.username ≡ "" → Given c nothing
  no_credential : c.credential ≡ "" → Given c nothing

pub data AllGiven : List IceServerConfig → List IceServer → Type 0 where
  none_left : AllGiven [] []
  and_given :
      {c : IceServerConfig} {i : IceServer} {cs : List IceServerConfig} {is : List IceServer}
      → Given c i
      → AllGiven cs is
      → AllGiven (c ∷ cs) (i ∷ is)

Given-parts :
    (urls : List String) (username credential : String)
    → let c : IceServerConfig = record {
      urls = urls;
      username = username;
      credential = credential;
    } in
      Given c (get_ice_server c)
unfolding get_ice_server
Given-parts [] username credential = no_urls refl
Given-parts (u ∷ us) username credential = elim (Bool-cases (username == "")) [
  | inl e ↦ rw e (no_username ((eq_iff username "").0 e))
  | inr e ↦ elim (Bool-cases (credential == "")) [
    | inl f ↦ rw e (rw f (no_credential ((eq_iff credential "").0 f)))
    | inr f ↦ rw e (
        rw f (
          turn (λ p. ground arith) (λ p. ground (arith, eq_iff username ""))
            (λ p. ground (arith, eq_iff credential ""))))
  ]
]

get_ice_server-Given : (c : IceServerConfig) → Given c (get_ice_server c)
get_ice_server-Given c = Given-parts c.urls c.username c.credential

pub map-AllGiven : (cs : List IceServerConfig) → AllGiven cs (map get_ice_server cs)
map-AllGiven [] = none_left
map-AllGiven (c ∷ cs) = and_given (get_ice_server-Given c) (map-AllGiven cs)

module _ (env : Env) where
  open env use {rtc}

  -- What WebRTC answers if a connection is asked for in `s`.
  abbrev pub grants : System env → Bool
  grants s =
      rtc.creates_peer_connection s.owner.peer.calls
        (map get_ice_server s.owner.peer.config.ice_servers)

  handle_sdp_offer-ready :
      (s : System env) (sdp : rtc.Sdp)
      → state_of env s ≡ ready_to_connect
      → s.owner.peer.has_peer_connection ≡ false
      → handle_sdp_offer env sdp s ≡ accept_offer env sdp s
  unfolding handle_sdp_offer
  handle_sdp_offer-ready s sdp ready none_yet = ground arith

  -- The call of `CreatePeerConnection` on a factory that is there.
  module _ (s : System env) (factory : s.owner.peer.has_factory ≡ true) where
    opened : (open_peer_connection env s).0 ≡ ok tt
    unfolding open_peer_connection
    opened = ground arith

    open_peer_connection_lem :
        let s' = (open_peer_connection env s).1 in
        (s'.owner.peer.has_peer_connection ≡ (grants s || s.owner.peer.has_peer_connection))
        × (s'.owner.peer.calls
            ≡ create_peer_connection (map get_ice_server s.owner.peer.config.ice_servers)
              ∷ s.owner.peer.calls)
        × (s'.ws ≡ s.ws)
        × (s'.owner.signaling ≡ s.owner.signaling)
        × (s'.owner.states ≡ s.owner.states)
        × (s'.owner.connector ≡ s.owner.connector)
    unfolding open_peer_connection
    open_peer_connection_lem = ground arith

  pub offer_asks :
      (s : System env) (sdp : rtc.Sdp)
      → Reliable env.net
      → Linked s
      → state_of env s ≡ ready_to_connect
      → s.owner.peer.has_peer_connection ≡ false
      → s.owner.peer.has_factory ≡ true
      → let s' = (handle_sdp_offer env sdp s).1 in
        let asked = create_peer_connection (map get_ice_server s.owner.peer.config.ice_servers) in
        ((handle_sdp_offer env sdp s).0 ≡ ok tt)
        × (s'.owner.peer.has_peer_connection ≡ grants s)
        × (state_of env s' ≡ (if grants s then rtc_connecting else rtc_failed))
        × (s'.owner.peer.calls ≡ (
            if grants s
            then set_remote_description sdp ∷ asked ∷ s.owner.peer.calls
            else asked ∷ s.owner.peer.calls))
        × (s'.owner.connector ≡ s.owner.connector)
  unfolding accept_offer
  offer_asks s sdp r l ready none_yet factory = rw (handle_sdp_offer-ready s sdp ready none_yet) (
      let s₁ = (set_state env rtc_connecting s).1 in
      let o₁ = set_state_ok env rtc_connecting s r l in
      let e₁ = set_state-SetTo env rtc_connecting s in
      let l₁ = set_state-Linked env rtc_connecting s l in
      let f₁ : s₁.owner.peer.has_factory ≡ true = rw e₁.peer factory in
      let s₂ = (open_peer_connection env s₁).1 in
      let o₂ = opened s₁ f₁ in
      let e₂ = open_peer_connection_lem s₁ f₁ in
      let g : grants s₁ ≡ grants s =
        ap
          (λ (p : PeerConnectionManager env).
            rtc.creates_peer_connection p.calls (map get_ice_server p.config.ice_servers))
          e₁.peer in
      let l₂ : Linked s₂ = ground arith in
      let o₃ = set_state_ok env rtc_failed s₂ r l₂ in
      let e₃ = set_state-SetTo env rtc_failed s₂ in
      let c : s₂.owner.peer.calls
          ≡ create_peer_connection (map get_ice_server s.owner.peer.config.ice_servers)
            ∷ s.owner.peer.calls =
        e₂.1
        ∙ ap
            (λ (p : PeerConnectionManager env).
              create_peer_connection (map get_ice_server p.config.ice_servers) ∷ p.calls)
            e₁.peer in
      ground arith)

  -- With no connection, in READY_TO_CONNECT and with a factory, an offer opens a connection and
  -- hands the offer to it, in RTC_CONNECTING; if WebRTC gives no connection, the state is
  -- RTC_FAILED. Either way the factory was asked once, with a server for each configured one, read
  -- as a server of TURN, which is empty where urls, user name or credential are missing, and the
  -- handlers are left alone. The network is taken to accept every frame.
  pub offer_accepted :
      (s : System env) (sdp : rtc.Sdp)
      → Reliable env.net
      → Linked s
      → state_of env s ≡ ready_to_connect
      → s.owner.peer.has_peer_connection ≡ false
      → s.owner.peer.has_factory ≡ true
      → let s' = (handle_sdp_offer env sdp s).1 in
        (servers : List IceServer) × AllGiven s.owner.peer.config.ice_servers servers
        × ((handle_sdp_offer env sdp s).0 ≡ ok tt)
        × (s'.owner.peer.has_peer_connection
            ≡ rtc.creates_peer_connection s.owner.peer.calls servers)
        × (state_of env s' ≡ (
            if rtc.creates_peer_connection s.owner.peer.calls servers
            then rtc_connecting
            else rtc_failed))
        × (s'.owner.peer.calls ≡ (
            if rtc.creates_peer_connection s.owner.peer.calls servers
            then set_remote_description sdp ∷ create_peer_connection servers ∷ s.owner.peer.calls
            else create_peer_connection servers ∷ s.owner.peer.calls))
        × (s'.owner.connector ≡ s.owner.connector)
  offer_accepted s sdp r l ready none_yet factory =
      let cs = s.owner.peer.config.ice_servers in
      let (o, has, state, calls, rest) = offer_asks s sdp r l ready none_yet factory in
      (map get_ice_server cs, map-AllGiven cs, o, has, state, calls, rest)

  -- With no connection, an offer in any state but READY_TO_CONNECT changes nothing.
  pub offer_refused :
      (s : System env) (sdp : rtc.Sdp)
      → state_of env s ≢ ready_to_connect
      → s.owner.peer.has_peer_connection ≡ false
      → handle_sdp_offer env sdp s ≡ (ok tt, s)
  unfolding handle_sdp_offer
  offer_refused s sdp other none_yet = ground arith
