-- ===== src/Signaling/Session.antt =====
-- src/signaling: a session with the signaling server over several connections of the socket.
use mosaic_core.Base.{String, ◌≡◌, refl, true, false, ◌∷◌, arith, ◌==◌, if◌then◌else◌, ◌-◌}
use mosaic_core.Base.Int.{negsuc, ◌==ℤ◌}
use mosaic_core.Exec.{ok, throws}
use mosaic_core.Env.{Env}
use mosaic_core.System.{
  System, State, initializing, ready_to_connect, rtc_connecting, rtc_connected, rtc_disconnecting,
  rtc_failed, disconnected,
}
use mosaic_core.WebSocket.{
  completed, failed, text, text_message, connect_internal, reconnect, handle_message,
  dispatch_message,
}
use mosaic_core.Signaling.{status_message, answer_message, send_sdp_answer, send_state}
use mosaic_core.Signaling.Receive.{
  callbacks, set_connected, on_connected, on_ws_message, handle_prepare_connection,
}
use mosaic_core.StateManager.{set_state, state_to_int}
use mosaic_core.StateManager.Report.{Reliable}

module _ (env : Env) where
  open env use {json, rtc, net}

  has_number : (n : State) → (state_to_int n ==ℤ negsuc 0) ≡ false
  unfolding state_to_int
  has_number initializing = refl
  has_number ready_to_connect = refl
  has_number rtc_connecting = refl
  has_number rtc_connected = refl
  has_number rtc_disconnecting = refl
  has_number rtc_failed = refl
  has_number disconnected = refl

  -- A reconnection that succeeds, on a network that takes every frame, sends the status that was
  -- recorded last, if there is one.
  pub reconnect_lem :
      (s : System env)
      → Reliable net
      → s.owner.signaling.has_ws_client ≡ true
      → let s' = (reconnect net (callbacks env) completed s).1 in
        ((reconnect net (callbacks env) completed s).0 ≡ ok tt)
        × (s'.connected ≡ true)
        × (s'.owner.signaling.is_connected ≡ true)
        × (s'.sent ≡ (
            if s.owner.signaling.latest_state ==ℤ negsuc 0
            then s.sent
            else text (json.write (status_message env s.owner.signaling.latest_state)) ∷ s.sent))
  unfolding reconnect connect_internal callbacks on_connected send_state
  reconnect_lem s r client =
      ground
        (arith, r s.sent (text (json.write (status_message env s.owner.signaling.latest_state))))

  -- A state that is set while the client is not connected is not sent, and the next reconnection
  -- that succeeds sends it.
  pub offline_state_reported :
      (n : State) (s : System env)
      → Reliable net
      → s.owner.signaling.has_ws_client ≡ true
      → s.owner.states.has_signaling_client ≡ true
      → s.owner.signaling.is_connected ≡ false
      → let s₁ = (set_state env n s).1 in
        (s₁.sent ≡ s.sent)
        × ((reconnect net (callbacks env) completed s₁).1.sent
            ≡ text (json.write (status_message env (state_to_int n))) ∷ s.sent)
  unfolding set_state
  offline_state_reported n s r client reporter offline =
      ground (arith, reconnect_lem (set_state env n s).1 r, has_number n)

  -- A reconnection that fails does not throw, calls no callback, sends nothing and plans no further
  -- attempt: but for the underlying client, which is made anew, only the count of the sleeping
  -- threads changes.
  pub reconnect_gives_up :
      (e : String) (s : System env)
      → reconnect net (callbacks env) (failed e) s ≡ (
        ok tt,
        record s { ws = record s.ws { has_client = true; reconnects = s.reconnects - 1 } },
      )
  unfolding reconnect connect_internal
  reconnect_gives_up e s = ground arith

  caught :
      (body e : String) (s : System env)
      → (on_ws_message env body s).0 ≡ throws e
      → handle_message net (callbacks env) (text_message completed body) s
        ≡ set_connected env false (on_ws_message env body s).1
  unfolding handle_message dispatch_message callbacks
  caught body e s thrown = rw thrown refl

  -- A message whose handling throws leaves the client as if it were not connected, while the socket
  -- is as the handling left it: an answer that is sent then is dropped.
  pub thrown_message_mutes :
      (body e : String) (sdp : rtc.Sdp) (s : System env)
      → (on_ws_message env body s).0 ≡ throws e
      → let s' = (handle_message net (callbacks env) (text_message completed body) s).1 in
        (s'.owner.signaling.is_connected ≡ false)
        × (s'.connected ≡ (on_ws_message env body s).1.connected)
        × (send_sdp_answer env sdp s' ≡ (ok tt, s'))
  unfolding set_connected send_sdp_answer
  thrown_message_mutes body e sdp s thrown = ground (arith, caught body e s thrown)

  -- An answer carries the identifier of the last prepared connection.
  pub prepared_answer :
      (body v : json.Value) (id : String) (sdp : rtc.Sdp) (s : System env)
      → Reliable net
      → s.owner.signaling.has_ws_client ≡ true
      → s.owner.signaling.is_connected ≡ true
      → s.connected ≡ true
      → s.has_client ≡ true
      → json.get body "rtcConnectionId" ≡ ok v
      → json.as_string v ≡ ok id
      → (id == "") ≡ false
      → let s₁ = (handle_prepare_connection env body s).1 in
        ((send_sdp_answer env sdp s₁).0 ≡ ok tt)
        × ((send_sdp_answer env sdp s₁).1.sent
            ≡ text (json.write (answer_message env id sdp)) ∷ s.sent)
  unfolding handle_prepare_connection send_sdp_answer
  prepared_answer body v id sdp s r client connected up has got read nonempty =
      ground (arith, r s.sent (text (json.write (answer_message env id sdp))))
