-- ===== src/Events/Unbroken.antt =====
-- The threads of src/signaling and src/core on a system whose objects are tied together: no event calls
-- through a null pointer.
use mosaic_core.Base.{
  ◌≡◌, ◌≢◌, refl, Bool, true, false, Option, none, some, arith, List, [], ◌∷◌, ◌+◌, ◌-◌,
}
use mosaic_core.Exec.{ok, fault, Exec, ◌>>◌}
use mosaic_core.Exec.Safe.{Safe, Safe-pure, Safe-bind, safe_rules}
use mosaic_core.Env.{Env}
use mosaic_core.System.{System}
use mosaic_core.WebSocket.{
  text, Task, Incoming, ping_message, pong_message, close_message, binary_message, text_message,
  set_ws, connect_internal, dispatch_message, handle_message, handle_close, reconnect,
}
use mosaic_core.Signaling.Receive.{callbacks}
use mosaic_core.Connector.{
  attach_found, PeerConnectionState, new, connecting, connected, disconnected, failed, closed,
  attach_channel, on_data_channel, on_ice_candidate, on_connection_change,
}
use mosaic_core.Events.Wired.{
  Wired, Tame, Sound, Sound-await, Sound-set_ws, Sound-client, Sound-with_channel, Sound-send_pong,
  Sound-send_state, Sound-on_connection_connected, Sound-send_ice_candidate,
  Sound-close_peer_connection,
}
use mosaic_core.Events.NoFault.{Sound-set_connected, Sound-on_ws_message, Sound-on_connected}
use mosaic_core.Events.{
  Event, message, socket_closed, reconnects, broadcast, remote_description_set, answer_created,
  local_description_set, candidate_gathered, data_channel_opened, connection_changed, step,
}
use mosaic_core.Events.Wired.{Sound-after_set_local_description}
use mosaic_core.StateManager.{broadcast_round, report_state, state_to_int}
use mosaic_core.StateManager.Report.{Reliable}
use mosaic_core.Signaling.{status_message}
use mosaic_core.Events.Armed.{Armed-after_set_session_description, Armed-after_create_sdp_answer}

module _ (env : Env) where
  -- What an event needs of the moment at which it comes: an answer or a remote description, that the
  -- peer connection is still there; a round of the broadcast, a network that takes every frame.
  abbrev pub Timely : Event env → System env → Type 0
  Timely broadcast s = Reliable env.net
  Timely remote_description_set s = s.owner.peer.has_peer_connection ≡ true
  Timely (answer_created d) s = s.owner.peer.has_peer_connection ≡ true
  Timely _ s = Unit

  -- Every event of the list comes at its time, the ones before it having been handled.
  abbrev pub AllTimely : List (Event env) → System env → Type 0
  AllTimely [] s = Unit
  AllTimely (e ∷ es) s = Timely e s × AllTimely es (step env e s).1

  abbrev pub NoneFaults : List (Event env) → System env → Type 0
  NoneFaults [] s = Unit
  NoneFaults (e ∷ es) s = ((step env e s).0 ≢ fault) × NoneFaults es (step env e s).1

module _ (env : Env) (t : Tame env) where
  Sound-on_close_task : Sound env (dispatch_message env.net (callbacks env) close_message)
  unfolding dispatch_message
  Sound-on_close_task = search (safe_rules, Sound-client, Sound-await) depth 9

  Sound-dispatch_message : (m : Incoming) → Sound env (dispatch_message env.net (callbacks env) m)
  unfolding dispatch_message callbacks
  Sound-dispatch_message ping_message = Sound-send_pong env
  Sound-dispatch_message pong_message = Safe-pure tt
  Sound-dispatch_message close_message = Sound-on_close_task
  Sound-dispatch_message (text_message extracted body) =
      Sound-await env extracted _ _ (Sound-on_ws_message env t body) (Sound-set_connected env false)
  Sound-dispatch_message binary_message = Safe-pure tt

  Sound-handle_message : (m : Incoming) → Sound env (handle_message env.net (callbacks env) m)
  unfolding handle_message callbacks
  Sound-handle_message m = search (safe_rules, Sound-dispatch_message, Sound-set_connected)

  Sound-made_client : Sound env (set_ws (λ w. record w { has_client = true }))
  Sound-made_client = Sound-set_ws env _ (λ w h. refl)

  Sound-ws_connected : (b : Bool) → Sound env (set_ws (λ w. record w { connected = b }))
  Sound-ws_connected b = Sound-set_ws env _ (λ w h. h)

  Sound-one_more : Sound env (set_ws (λ w. record w { reconnects = w.reconnects + 1 }))
  Sound-one_more = Sound-set_ws env _ (λ w h. h)

  Sound-one_less : Sound env (set_ws (λ w. record w { reconnects = w.reconnects - 1 }))
  Sound-one_less = Sound-set_ws env _ (λ w h. h)

  Sound-connect_internal : (dial : Task) → Sound env (connect_internal env.net (callbacks env) dial)
  unfolding connect_internal callbacks
  Sound-connect_internal dial =
      search (safe_rules, Sound-made_client, Sound-ws_connected, Sound-await, Sound-on_connected)
        depth 9

  Sound-handle_close : Sound env (handle_close env.net (callbacks env))
  unfolding handle_close callbacks
  Sound-handle_close =
      search (safe_rules, Sound-ws_connected, Sound-set_connected, Sound-one_more) depth 9

  Sound-reconnect : (dial : Task) → Sound env (reconnect env.net (callbacks env) dial)
  unfolding reconnect
  Sound-reconnect dial = search (safe_rules, Sound-one_less, Sound-connect_internal)

  -- A handler's own steps, whatever it holds.
  handler_fine :
      {A : Type 0} (m : Exec env.channels.Handler A)
      → ((h : env.channels.Handler) → (m h).0 ≢ fault)
      → Safe (λ (h : env.channels.Handler). Unit) m
  handler_fine m k = record { at = λ h u. tt; fine = λ h u. k h }

  attaching_fine :
      (ch : env.channels.Channel) (h : env.channels.Handler)
      → ((env.channels.set_data_channel_interface ch
            >> (env.channels.register_data_channel_observer >> env.channels.after_create))
          h).0
        ≢ fault
  attaching_fine ch h =
      (Safe-bind _ _ (handler_fine _ (t.channel_set ch)) (λ _.
          Safe-bind _ _ (handler_fine _ t.channel_register)
            (λ _. handler_fine _ t.channel_after))).fine
        h tt

  Sound-attach_channel :
      (ch : env.channels.Channel) (h : env.channels.Handler) → Sound env (attach_channel env ch h)
  unfolding attach_channel
  Sound-attach_channel ch h = search (safe_rules, Sound-with_channel, attaching_fine)

  Sound-found :
      (ch : env.channels.Channel) (o : Option env.channels.Handler)
      → Sound env (attach_found env ch o)
  unfolding attach_found
  Sound-found ch none = Safe-pure tt
  Sound-found ch (some h) = Sound-attach_channel ch h

  Sound-on_data_channel : (ch : env.channels.Channel) → Sound env (on_data_channel env ch)
  unfolding on_data_channel
  Sound-on_data_channel ch = search (safe_rules, Sound-found)

  Sound-on_ice_candidate : (c : Option env.rtc.Candidate) → Sound env (on_ice_candidate env c)
  unfolding on_ice_candidate
  Sound-on_ice_candidate none = Safe-pure tt
  Sound-on_ice_candidate (some c) = Sound-send_ice_candidate env c

  Sound-on_connection_change : (c : PeerConnectionState) → Sound env (on_connection_change env c)
  unfolding on_connection_change
  Sound-on_connection_change new = Safe-pure tt
  Sound-on_connection_change connecting = Safe-pure tt
  Sound-on_connection_change connected = Sound-on_connection_connected env
  Sound-on_connection_change failed = Sound-close_peer_connection env t
  Sound-on_connection_change disconnected = Sound-close_peer_connection env t
  Sound-on_connection_change closed = Sound-close_peer_connection env t

  reported : (s : System env) → Reliable env.net → Wired s → (report_state env s).0 ≡ ok tt
  unfolding report_state
  reported s r w = ground (
    arith,
    r s.sent (text (env.json.write (status_message env (state_to_int s.owner.states.state)))),
  )

  Wired-report_state : Sound env (report_state env)
  unfolding report_state
  Wired-report_state = search (safe_rules, Sound-send_state)

  step_fine :
      (e : Event env) (s : System env)
      → Wired s
      → Timely env e s
      → Wired (step env e s).1 × ((step env e s).0 ≢ fault)
  unfolding step broadcast_round
  step_fine (message m) s w i = ((Sound-handle_message m).at s w, (Sound-handle_message m).fine s w)
  step_fine socket_closed s w i = (Sound-handle_close.at s w, Sound-handle_close.fine s w)
  step_fine (reconnects d) s w i = ((Sound-reconnect d).at s w, (Sound-reconnect d).fine s w)
  step_fine broadcast s w i =
      let r = reported s i w in let k = Wired-report_state.at s w in (ground arith, ground arith)
  step_fine remote_description_set s w i =
      let k = Armed-after_set_session_description env t in ((k.at s (w, i)).0, k.fine s (w, i))
  step_fine (answer_created d) s w i =
      let k = Armed-after_create_sdp_answer env t d in ((k.at s (w, i)).0, k.fine s (w, i))
  step_fine (local_description_set d) s w i = (
    (Sound-after_set_local_description env d).at s w,
    (Sound-after_set_local_description env d).fine s w,
  )
  step_fine (candidate_gathered c) s w i =
      ((Sound-on_ice_candidate c).at s w, (Sound-on_ice_candidate c).fine s w)
  step_fine (data_channel_opened ch) s w i =
      ((Sound-on_data_channel ch).at s w, (Sound-on_data_channel ch).fine s w)
  step_fine (connection_changed c) s w i =
      ((Sound-on_connection_change c).at s w, (Sound-on_connection_change c).fine s w)

  -- Once the objects are tied together, they stay so, and no event that comes at its time faults.
  pub run_fine :
      (es : List (Event env)) (s : System env) → Wired s → AllTimely env es s → NoneFaults env es s
  run_fine [] s w i = tt
  run_fine (e ∷ es) s w i =
      let (w', fine) = step_fine e s w i.0 in (fine, run_fine es (step env e s).1 w' i.1)
