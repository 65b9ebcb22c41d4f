-- ===== src/Events/Owned.antt =====
-- src/core/peer_connection_manager.cpp: in which states there is a peer connection.
use mosaic_core.Base.{ap, ◌≡◌, Bool, true, false, List, Option, arith}
use mosaic_core.Exec.{modify}
use mosaic_core.Env.{Env}
use mosaic_core.Auth.{Authenticator}
use mosaic_core.Signaling.Receive.{handle_authentication_complete}
use mosaic_core.System.{
  System, PeerConnectionManager, State, initializing, ready_to_connect, rtc_connecting,
  rtc_connected, rtc_disconnecting, rtc_failed, disconnected,
}
use mosaic_core.StateManager.{state_of, set_state}
use mosaic_core.StateManager.Report.{set_state-SetTo}
use mosaic_core.PeerConnection.{
  close_peer_connection, release_connection, accept_offer, handle_sdp_offer, open_peer_connection,
  on_connection_connected,
}
use mosaic_core.PeerConnection.Tracks.{log_call}
use mosaic_core.PeerConnection.Release.{Closing, release_connection_lem}
use mosaic_core.Events.{Event, run}
use mosaic_core.Events.Messages.{OnState, Kept}
use mosaic_core.Events.Keeps.{Kept-run}

abbrev pub may_own : State → Bool
may_own initializing = false
may_own ready_to_connect = false
may_own rtc_connecting = true
may_own rtc_connected = true
may_own rtc_disconnecting = true
may_own rtc_failed = false
may_own disconnected = false

-- A peer connection is there only in RTC_CONNECTING, RTC_CONNECTED and RTC_DISCONNECTING.
abbrev pub Owned : State → Bool → Type 0
Owned n has = has ≡ true → may_own n ≡ true

module _ (env : Env) (c : Closing env) where
  abbrev Has : Option Authenticator → State → Bool → Type 0
  Has a = Owned

  Owned-close : Kept env Has (close_peer_connection env)
  unfolding close_peer_connection
  Owned-close = record {
    at = λ s h.
        let s₁ = (set_state env rtc_disconnecting s).1 in
        let s₂ = (release_connection env s₁).1 in
        ground (
          arith,
          set_state-SetTo env rtc_disconnecting s,
          release_connection_lem env c s₁,
          set_state-SetTo env ready_to_connect s₂,
        );
  }

  Owned-accept_offer :
      (sdp : env.rtc.Sdp) (s : System env)
      → s.owner.peer.has_peer_connection ≡ false
      → OnState env Has (accept_offer env sdp s).1.owner
  unfolding accept_offer open_peer_connection log_call
  Owned-accept_offer sdp s none_yet =
      let s₁ = (set_state env rtc_connecting s).1 in
      let e₁ = set_state-SetTo env rtc_connecting s in
      let kept = ap (λ (p : PeerConnectionManager env). p.has_peer_connection) e₁.peer in
      let s₂ = (open_peer_connection env s₁).1 in
      let e₂ = set_state-SetTo env rtc_failed s₂ in
      let still = ap (λ (p : PeerConnectionManager env). p.has_peer_connection) e₂.peer in
      ground (arith, e₁, kept, e₂, still)

  Owned-handle_sdp_offer : (sdp : env.rtc.Sdp) → Kept env Has (handle_sdp_offer env sdp)
  unfolding handle_sdp_offer
  Owned-handle_sdp_offer sdp = record {
    at = λ s h.
        let s₁ = (close_peer_connection env s).1 in
        let k : OnState env Has s₁.owner = Owned-close.at s h in
        ground (arith, k, Owned-accept_offer sdp s, Owned-accept_offer sdp s₁);
  }

  Owned-on_connection_connected : Kept env Has (on_connection_connected env)
  unfolding on_connection_connected
  Owned-on_connection_connected = record {
    at = λ s h. ground (arith, set_state-SetTo env rtc_connected s);
  }

  Owned-complete : (a : Authenticator) → Kept env Has (handle_authentication_complete env a)
  unfolding handle_authentication_complete modify
  Owned-complete a = record { at = λ s h. h }

  -- If the handlers close without throwing, then whatever the server sends, the network does and
  -- WebRTC reports, and in whatever order, a peer connection exists only in the states RTC_CONNECTING,
  -- RTC_CONNECTED and RTC_DISCONNECTING, when that holds at the start.
  pub run-Owned :
      (es : List (Event env)) (s : System env)
      → Owned (state_of env s) s.owner.peer.has_peer_connection
      → Owned (state_of env (run env es s)) (run env es s).owner.peer.has_peer_connection
  run-Owned =
      Kept-run env Has Owned-handle_sdp_offer Owned-close Owned-complete
        Owned-on_connection_connected
