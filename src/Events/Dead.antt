-- ===== src/Events/Dead.antt =====
-- src/core/peer_connection_manager.cpp and mosaic_connector.cpp: the states from which there is no way
-- back.
use mosaic_core.Base.{◌≡◌, ◌≢◌, Bool, true, false, List, [], ◌∷◌, arith, Option}
use mosaic_core.Exec.{modify}
use mosaic_core.Env.{Env}
use mosaic_core.System.{
  System, State, initializing, ready_to_connect, rtc_connecting, rtc_connected, rtc_disconnecting,
  rtc_failed, disconnected,
}
use mosaic_core.StateManager.{state_of}
use mosaic_core.PeerConnection
use mosaic_core.PeerConnection.{close_peer_connection}
use mosaic_core.Connector.{connected}
use mosaic_core.Signaling.Receive.{handle_authentication_complete}
use mosaic_core.Events.{Event, connection_changed, step, run}
use mosaic_core.Events.Messages.{Kept}
use mosaic_core.Events.Messages.Handled.{Kept-any_message}
use mosaic_core.Auth.{Authenticator}
use mosaic_core.Events.Keeps.{Kept-step}

-- No offer is accepted and no connection is closed in these states.
abbrev pub is_dead : State → Bool
is_dead initializing = true
is_dead ready_to_connect = false
is_dead rtc_connecting = false
is_dead rtc_connected = false
is_dead rtc_disconnecting = true
is_dead rtc_failed = true
is_dead disconnected = true

-- WebRTC never reports a connection.
abbrev pub NoConnect : {env : Env} → List (Event env) → Type 0
NoConnect [] = Unit
NoConnect (e ∷ es) = (e ≢ connection_changed connected) × NoConnect es

module _ (env : Env) (n : State) (dead : is_dead n ≡ true) where
  abbrev Same : Option Authenticator → State → Bool → Type 0
  Same a m has = m ≡ n

  Same-handle_sdp_offer :
      (sdp : env.rtc.Sdp) → Kept env Same (PeerConnection.handle_sdp_offer env sdp)
  unfolding PeerConnection.handle_sdp_offer close_peer_connection
  Same-handle_sdp_offer sdp = record { at = λ s h. ground arith }

  Same-close_peer_connection : Kept env Same (close_peer_connection env)
  unfolding close_peer_connection
  Same-close_peer_connection = record { at = λ s h. ground arith }

  Same-complete : (a : Authenticator) → Kept env Same (handle_authentication_complete env a)
  unfolding handle_authentication_complete modify
  Same-complete a = record { at = λ s h. h }

  stays : (e : Event env) → e ≢ connection_changed connected → Kept env Same (step env e)
  stays e h =
      Kept-step env Same Same-handle_sdp_offer Same-close_peer_connection e
        (λ m _.
          Kept-any_message env Same Same-handle_sdp_offer Same-close_peer_connection Same-complete
            m)
        (λ up. absurd (h up))

  -- In a state that is neither READY_TO_CONNECT, RTC_CONNECTING nor RTC_CONNECTED, whatever the
  -- server sends, the network does and WebRTC reports, but for a report that it has connected,
  -- leaves the state as it is: RTC_FAILED, and RTC_DISCONNECTING after a refused report, are final.
  pub run-dead :
      (es : List (Event env)) (s : System env)
      → NoConnect es
      → state_of env s ≡ n
      → state_of env (run env es s) ≡ n
  unfolding run
  run-dead [] s ok_es h = h
  run-dead (e ∷ es) s ok_es h = run-dead es (step env e s).1 ok_es.1 ((stays e ok_es.0).at s h)
