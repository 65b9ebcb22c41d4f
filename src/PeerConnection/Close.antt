-- ===== src/PeerConnection/Close.antt =====
-- `ClosePeerConnection` of src/core/peer_connection_manager.cpp, on every path.
use mosaic_core.Base.{String, ◌≡◌, refl, ap, true, false, ◌∷◌, arith, if◌then◌else◌, ◌||◌}
use mosaic_core.Exec.{ok, throws}
use mosaic_core.Env.{Env, close}
use mosaic_core.System.{
  System, PeerConnectionManager, ready_to_connect, rtc_connecting, rtc_connected, rtc_disconnecting,
}
use mosaic_core.StateManager.{set_state, state_of, is_state}
use mosaic_core.StateManager.Report.{
  Reliable, Linked, set_state-SetTo, set_state-Linked, set_state_ok,
}
use mosaic_core.PeerConnection.{close_peer_connection, release_connection}
use mosaic_core.PeerConnection.Tracks.{with_track, close_all_media_tracks}
use mosaic_core.PeerConnection.Loop.{Every, Keeps-for_each}
use mosaic_core.PeerConnection.Release.{Closing, release_connection_lem}

module _ (env : Env) (c : Closing env) where
  -- From RTC_CONNECTED or RTC_CONNECTING, `ClosePeerConnection` closes every media track and data
  -- channel handler, closes and drops the peer connection if there is one, and ends in
  -- READY_TO_CONNECT, if the handlers close and the network takes every frame.
  pub close_active :
      (s : System env)
      → Reliable env.net
      → Linked s
      → (is_state env rtc_connected s || is_state env rtc_connecting s) ≡ true
      → let s' = (close_peer_connection env s).1 in
        ((close_peer_connection env s).0 ≡ ok tt)
        × (state_of env s' ≡ ready_to_connect)
        × (s'.owner.peer.has_peer_connection ≡ false)
        × (s'.owner.peer.calls ≡ (
            if s.owner.peer.has_peer_connection
            then close ∷ s.owner.peer.calls
            else s.owner.peer.calls))
        × Every c.TrackClosed s'.owner.connector.media_track_handlers
        × Every c.ChannelClosed s'.owner.connector.data_channel_handlers
  unfolding close_peer_connection
  close_active s r l active =
      let s₁ = (set_state env rtc_disconnecting s).1 in
      let s₂ = (release_connection env s₁).1 in
      let o₁ = set_state_ok env rtc_disconnecting s r l in
      let l₁ = set_state-Linked env rtc_disconnecting s l in
      let e₁ = set_state-SetTo env rtc_disconnecting s in
      let (o₂, e₂) = release_connection_lem env c s₁ in
      let l₂ : Linked s₂ = ground arith in
      let o₃ = set_state_ok env ready_to_connect s₂ r l₂ in
      let e₃ = set_state-SetTo env ready_to_connect s₂ in
      (
        ground arith,
        ground arith,
        ground arith,
        ground arith,
        record { at = λ k t e. ground (arith, e₂.tracks k t) },
        record { at = λ k h e. ground (arith, e₂.channels k h) },
      )

  -- What else `ClosePeerConnection` leaves for the next offer.
  pub close_active_rest :
      (s : System env)
      → Reliable env.net
      → Linked s
      → (is_state env rtc_connected s || is_state env rtc_connecting s) ≡ true
      → let s' = (close_peer_connection env s).1 in
        Linked s'
        × (s'.owner.peer.has_factory ≡ s.owner.peer.has_factory)
        × (s'.owner.peer.config ≡ s.owner.peer.config)
  unfolding close_peer_connection
  close_active_rest s r l active =
      let s₁ = (set_state env rtc_disconnecting s).1 in
      let s₂ = (release_connection env s₁).1 in
      let o₁ = set_state_ok env rtc_disconnecting s r l in
      let l₁ = set_state-Linked env rtc_disconnecting s l in
      let e₁ = set_state-SetTo env rtc_disconnecting s in
      let (o₂, e₂) = release_connection_lem env c s₁ in
      let l₂ : Linked s₂ = ground arith in
      let l₃ = set_state-Linked env ready_to_connect s₂ l₂ in
      let e₃ = set_state-SetTo env ready_to_connect s₂ in
      (
        ground arith,
        ground (
          arith,
          ap (λ (p : PeerConnectionManager env). p.has_factory) e₁.peer,
          ap (λ (p : PeerConnectionManager env). p.has_factory) e₃.peer,
        ),
        ground (
          arith,
          ap (λ (p : PeerConnectionManager env). p.config) e₁.peer,
          ap (λ (p : PeerConnectionManager env). p.config) e₃.peer,
        ),
      )

peer-close_all_media_tracks :
    (env : Env) (s : System env) → (close_all_media_tracks env s).1.owner.peer ≡ s.owner.peer
unfolding close_all_media_tracks with_track
peer-close_all_media_tracks env s =
    (Keeps-for_each env {P = λ s'. s'.owner.peer ≡ s.owner.peer}
        (λ k t. with_track env k t env.tracks.close) (λ k t. record { at = λ s' e. e })
        s.owner.connector.media_track_handlers).at
      s refl

module _ (env : Env) (s : System env) where
  -- In any other state `ClosePeerConnection` changes nothing and sends nothing.
  pub close_inactive :
      (is_state env rtc_connected s || is_state env rtc_connecting s) ≡ false
      → close_peer_connection env s ≡ (ok tt, s)
  unfolding close_peer_connection
  close_inactive h = ground arith

  -- A report that the network refuses in the middle of `ClosePeerConnection` throws out of it, with
  -- the state RTC_DISCONNECTING, no handler closed and the peer connection still there.
  pub close_refused :
      (e : String)
      → (is_state env rtc_connected s || is_state env rtc_connecting s) ≡ true
      → (set_state env rtc_disconnecting s).0 ≡ throws e
      → let s' = (close_peer_connection env s).1 in
        ((close_peer_connection env s).0 ≡ throws e)
        × (state_of env s' ≡ rtc_disconnecting)
        × (s'.owner.connector ≡ s.owner.connector)
        × (s'.owner.peer ≡ s.owner.peer)
  unfolding close_peer_connection
  close_refused e active refused = ground (arith, set_state-SetTo env rtc_disconnecting s)

  -- A media track handler that throws does not keep the connector from READY_TO_CONNECT, and what the loops
  -- had not reached stays as it was: the peer connection is neither closed nor dropped.
  pub close_handler_throws :
      (e : String)
      → Reliable env.net
      → Linked s
      → (is_state env rtc_connected s || is_state env rtc_connecting s) ≡ true
      → (close_all_media_tracks env (set_state env rtc_disconnecting s).1).0 ≡ throws e
      → let s' = (close_peer_connection env s).1 in
        (state_of env s' ≡ ready_to_connect) × (s'.owner.peer ≡ s.owner.peer)
  unfolding close_peer_connection release_connection
  close_handler_throws e r l active thrown =
      let s₁ = (set_state env rtc_disconnecting s).1 in
      let s₂ = (close_all_media_tracks env s₁).1 in
      ground (
        arith,
        set_state_ok env rtc_disconnecting s r l,
        set_state-SetTo env rtc_disconnecting s,
        peer-close_all_media_tracks env s₁,
        set_state-SetTo env ready_to_connect s₂,
      )
