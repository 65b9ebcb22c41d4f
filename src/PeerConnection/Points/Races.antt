-- ===== src/PeerConnection/Points/Races.antt =====
-- Two threads in src/core/peer_connection_manager.cpp at once: what a bad order of their steps does.
use mosaic_core.Base.{◌≡◌, true, false, List, [], ◌∷◌, arith, Bool}
use mosaic_core.Exec.{ok, fault}
use mosaic_core.Env.{Env}
use mosaic_core.System.{System, rtc_connecting, rtc_connected, rtc_disconnecting}
use mosaic_core.StateManager.{set_state, state_of}
use mosaic_core.StateManager.Report.{
  Reliable, Linked, set_state-SetTo, set_state-Linked, set_state_ok,
}
use mosaic_core.PeerConnection.Release.{Closing}
use mosaic_core.PeerConnection.Points.Steps.{handlers_closed}
use mosaic_core.PeerConnection.Points.{
  tests_connected, closes_handlers, reports_connected, done, advance, together,
}

-- Both threads pass the test of the state, and both that of the pointer, before one of them calls
-- `Close` and drops the pointer.
abbrev pub null_schedule : List Bool
null_schedule =
    true ∷ false ∷ true ∷ true ∷ true ∷ false ∷ false ∷ false ∷ false ∷ false ∷ true ∷ []

module _ (env : Env) where
  -- From RTC_CONNECTING, if the network takes every frame and a client that counts as connected
  -- exists, a call of `ClosePeerConnection` is lost when `OnConnectionConnected` runs on another thread
  -- between its two tests of the state: it returns with the connection, the calls to it and the
  -- handlers as they were, in RTC_CONNECTED.
  pub missed_close :
      (s : System env)
      → Reliable env.net
      → Linked s
      → state_of env s ≡ rtc_connecting
      → let r = together env (true ∷ false ∷ true ∷ []) tests_connected reports_connected s in
        (r.0 ≡ ok (done, done))
        × (state_of env r.1 ≡ rtc_connected)
        × (r.1.owner.peer ≡ s.owner.peer)
        × (r.1.owner.connector ≡ s.owner.connector)
  unfolding together advance
  missed_close s r l e =
      ground (arith, set_state_ok env rtc_connected s r l, set_state-SetTo env rtc_connected s)

  module _ (c : Closing env) where
    -- From RTC_CONNECTED with a connection, on a network that takes every frame and with handlers
    -- that close, two calls of `ClosePeerConnection` whose steps come in the order `null_schedule`
    -- end in a call through a null pointer.
    pub closes_null :
        (s : System env)
        → Reliable env.net
        → Linked s
        → state_of env s ≡ rtc_connected
        → s.owner.peer.has_peer_connection ≡ true
        → (together env null_schedule tests_connected tests_connected s).0 ≡ fault
    unfolding together advance
    closes_null s r l e has =
        let s₁ = (set_state env rtc_disconnecting s).1 in
        let s₂ = (advance env closes_handlers s₁).1 in
        let s₃ = (set_state env rtc_disconnecting s₂).1 in
        let o₁ = set_state_ok env rtc_disconnecting s r l in
        let l₁ = set_state-Linked env rtc_disconnecting s l in
        let e₁ = set_state-SetTo env rtc_disconnecting s in
        let h₁ = handlers_closed env c s₁ in
        let l₂ : Linked s₂ = ground arith in
        let o₃ = set_state_ok env rtc_disconnecting s₂ r l₂ in
        let e₃ = set_state-SetTo env rtc_disconnecting s₂ in
        let h₃ = handlers_closed env c s₃ in ground arith
