-- ===== src/StateManager.antt =====
-- src/core/connector_state_manager.cpp: the connector's state, which every change and every second
-- reports to the signaling server. Each method runs under the mutex, so it is one step.
pub mod Report
pub mod Worker
use mosaic_core.Base.{String, Bool, true, false, not}
use mosaic_core.Base.Int.{ℤ, pos}
use mosaic_core.Exec.{crash, gets, modify, when, catch, ◌>>=◌, ◌>>◌}
use mosaic_core.Env.{Env}
use mosaic_core.System.{
  Action, System, State, initializing, ready_to_connect, rtc_connecting, rtc_connected,
  rtc_disconnecting, rtc_failed, disconnected, put_states,
}
use mosaic_core.Signaling.{send_state}

unfoldable pub state_to_int : State → ℤ
state_to_int initializing = pos 6
state_to_int ready_to_connect = pos 0
state_to_int rtc_connecting = pos 1
state_to_int rtc_connected = pos 2
state_to_int rtc_disconnecting = pos 3
state_to_int rtc_failed = pos 4
state_to_int disconnected = pos 5

unfoldable state_to_string : State → String
state_to_string initializing = "INITIALIZING"
state_to_string ready_to_connect = "READY_TO_CONNECT"
state_to_string rtc_connecting = "RTC_CONNECTING"
state_to_string rtc_connected = "RTC_CONNECTED"
state_to_string rtc_disconnecting = "RTC_DISCONNECTING"
state_to_string rtc_failed = "RTC_FAILED"
state_to_string disconnected = "DISCONNECTED"

-- `==` on the enumeration.
abbrev pub same_state : State → State → Bool
same_state initializing initializing = true
same_state ready_to_connect ready_to_connect = true
same_state rtc_connecting rtc_connecting = true
same_state rtc_connected rtc_connected = true
same_state rtc_disconnecting rtc_disconnecting = true
same_state rtc_failed rtc_failed = true
same_state disconnected disconnected = true
same_state _ _ = false

module _ (env : Env) where
  abbrev pub state_of : System env → State
  state_of s = s.owner.states.state

  -- The private `SendState`.
  unfoldable pub report_state : Action env Unit
  unfolding send_state ◌>>=◌
  report_state = do
    manager ← gets (λ s. s.owner.states)
    when manager.has_signaling_client (send_state env (state_to_int manager.state))

  unfoldable pub set_state : State → Action env Unit
  unfolding report_state ◌>>=◌
  set_state new_state = do modify (put_states (λ m. record m { state = new_state })); report_state

  abbrev pub is_state : State → System env → Bool
  is_state expected s = same_state (state_of s) expected

  -- One round of `StateBroadcastWorker`. What is thrown in the thread ends the process.
  unfoldable pub broadcast_round : Action env Unit
  unfolding report_state ◌>>=◌
  broadcast_round = do
    stopped ← gets (λ s. s.owner.states.stop_flag)
    catch (when (not stopped) report_state) (λ e. crash)
