-- ===== src/Signaling.antt =====
-- src/signaling/signaling_client.cpp: what the client sends.
pub mod Receive
pub mod Session
use mosaic_core.Base.{String, not, ◌&&◌, ◌==◌}
use mosaic_core.Base.Int.{ℤ}
use mosaic_core.Exec.{gets, modify, when, deref, ◌>>=◌, ◌>>◌}
use mosaic_core.Env.{Env}
use mosaic_core.System.{Action, put_signaling}
use mosaic_core.WebSocket.{send}

module _ (env : Env) where
  open env use {json, rtc, net}

  -- `{"type": type, "data": data}`
  abbrev pub message : String → json.Value → json.Value
  message type body = json.set (json.set json.null "type" (json.of_string type)) "data" body

  abbrev pub status_message : ℤ → json.Value
  status_message n = message "status.update" (json.set json.null "status" (json.of_int n))

  abbrev pub answer_message : String → rtc.Sdp → json.Value
  answer_message id sdp = message "signaling.send_sdp_answer" (
      json.set (json.set json.null "rtcConnectionId" (json.of_string id)) "sdpAnswer"
        (json.of_string (rtc.sdp_to_string sdp)))

  abbrev pub candidate_body : rtc.Candidate → json.Value
  candidate_body c =
      json.set
        (json.set (json.set json.null "candidate" (json.of_string (rtc.candidate_to_string c)))
          "sdpMid" (json.of_string (rtc.sdp_mid c)))
        "sdpMLineIndex" (json.of_int (rtc.sdp_mline_index c))

  abbrev pub candidate_message : String → rtc.Candidate → json.Value
  candidate_message id c = message "signaling.exchange_ice_candidate" (
      json.set (json.set json.null "rtcConnectionId" (json.of_string id)) "iceCandidate"
        (candidate_body c))

  unfoldable pub send_ws_message : json.Value → Action env Unit
  unfolding send ◌>>=◌
  send_ws_message v = do
    client ← gets (λ s. s.owner.signaling.has_ws_client)
    connected ← gets (λ s. s.connected)
    deref client (when connected (send net (json.write v)))

  unfoldable pub send_sdp_answer : rtc.Sdp → Action env Unit
  unfolding send_ws_message ◌>>=◌
  send_sdp_answer sdp = do
    client ← gets (λ s. s.owner.signaling)
    when (client.is_connected && not (client.rtc_connection_id == ""))
        (send_ws_message (answer_message client.rtc_connection_id sdp))

  unfoldable pub send_ice_candidate : rtc.Candidate → Action env Unit
  unfolding send_ws_message ◌>>=◌
  send_ice_candidate c = do
    client ← gets (λ s. s.owner.signaling)
    when (client.is_connected && not (client.rtc_connection_id == ""))
        (send_ws_message (candidate_message client.rtc_connection_id c))

  -- The state is kept also while there is no connection.
  unfoldable pub send_state : ℤ → Action env Unit
  unfolding send_ws_message ◌>>=◌
  send_state n = do
    modify (put_signaling (λ c. record c { latest_state = n }))
    connected ← gets (λ s. s.owner.signaling.is_connected)
    when connected (send_ws_message (status_message n))
