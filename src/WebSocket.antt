-- ===== src/WebSocket.antt =====
-- src/signaling/websocket_client_impl.cpp: the client of one WebSocket connection.
--
-- cpprestsdk's `websocket_callback_client` is not part of the repository. How one of its tasks
-- ended is a `Task`: what a connection attempt gives is an argument of the call, what a send or a
-- close gives is the parameter `Net`, a function of the frames that the network took before.
pub mod Keeps
use mosaic_core.Base.{
  String, ◌<>◌, Bool, true, false, ℕ, ◌-◌, ◌+◌, Option, none, some, List, [], ◌∷◌, not,
}
use mosaic_core.Exec.{Exec, pure, throw, gets, modify, when, catch, deref, ◌>>=◌, ◌>>◌}

-- How `wait()` on a pplx task ends.
pub data Task : Type 0 where
  completed : Task
  canceled : Task
  failed : String → Task

pub data Frame : Type 0 where
  text : String → Frame
  pong : Frame

-- `m_client` is null until the first `connectInternal`; `reconnects` counts the detached threads of
-- `handleClose` that still sleep; `sent` is what the network took, the newest first.
pub record Ws : Type 0 where
  pub connected : Bool
  pub uri : String
  pub has_client : Bool
  pub reconnects : ℕ
  pub sent : List Frame

abbrev pub new_ws : Ws
new_ws = record { connected = false; uri = ""; has_client = false; reconnects = 0; sent = [] }

pub record Net : Type 0 where
  pub send_result : List Frame → Frame → Task
  pub close_result : List Frame → Task

-- The client beside the object that owns it, on which its callbacks act.
pub record Link (S : Type 0) : Type 0 where
  pub ws : Ws
  pub open ws use *
  pub owner : S

-- The four `std::function` members; `none` is an empty one.
pub record Callbacks (S : Type 0) : Type 0 where
  pub on_connected : Option (Exec (Link S) Unit)
  pub on_disconnected : Option (Exec (Link S) Unit)
  pub on_message : Option (String → Exec (Link S) Unit)
  pub on_error : Option (String → Exec (Link S) Unit)

-- What a message event carries: `text_message` holds the outcome of `extract_string` and the body.
pub data Incoming : Type 0 where
  ping_message pong_message close_message binary_message : Incoming
  text_message : Task → String → Incoming

module _ {S : Type 0} where
  abbrev pub set_ws : (Ws → Ws) → Exec (Link S) Unit
  set_ws f = modify (λ s. record s { ws = f s.ws })

  -- `if (callback) callback();`
  unfoldable pub invoke : Option (Exec (Link S) Unit) → Exec (Link S) Unit
  invoke none = pure tt
  invoke (some f) = f

  unfoldable pub invoke_with : Option (String → Exec (Link S) Unit) → String → Exec (Link S) Unit
  invoke_with none e = pure tt
  invoke_with (some f) e = f e

  -- Calling an empty `std::function` throws `bad_function_call`.
  unfoldable pub call_with : Option (String → Exec (Link S) Unit) → String → Exec (Link S) Unit
  call_with none e = throw "bad_function_call"
  call_with (some f) e = f e

  -- `task.then(body).wait()` with `on_cancel` for a status other than `completed`.
  unfoldable pub await : Task → Exec (Link S) Unit → Exec (Link S) Unit → Exec (Link S) Unit
  await completed body on_cancel = body
  await canceled body on_cancel = on_cancel
  await (failed e) body on_cancel = throw e

module _ {S : Type 0} (net : Net) where
  -- The test of `m_connected`, then the send. A frame that the network does not take throws.
  unfoldable pub transmit : Frame → Exec (Link S) Unit
  unfolding ◌>>=◌ await
  transmit f = do
    client ← gets (λ s. s.has_client)
    sent ← gets (λ s. s.sent)
    deref client (
        await (net.send_result sent f) (set_ws (λ w. record w { sent = f ∷ w.sent }))
          (throw "Failed to send message"))

  -- The answer to a ping, whose status is not looked at: only a task that failed throws.
  unfoldable pub send_pong : Exec (Link S) Unit
  unfolding ◌>>=◌ await
  send_pong = do
    client ← gets (λ s. s.has_client)
    sent ← gets (λ s. s.sent)
    deref client (
        await (net.send_result sent pong) (set_ws (λ w. record w { sent = pong ∷ w.sent }))
          (pure tt))

  -- `send`, and `sendJson` on the written text.
  unfoldable pub send : String → Exec (Link S) Unit
  unfolding transmit ◌>>=◌
  send message = do connected ← gets (λ s. s.connected); when connected (transmit (text message))

  module _ (cb : Callbacks S) where
    unfoldable pub connect_internal : Task → Exec (Link S) Unit
    unfolding ◌>>=◌ await invoke
    connect_internal dial = do
      set_ws (λ w. record w { has_client = true })
      catch
          (await dial (do set_ws (λ w. record w { connected = true }); invoke cb.on_connected)
            (throw "Failed to connect to WebSocket server"))
          (λ e. pure tt)

    unfoldable pub connect : String → Task → Exec (Link S) Unit
    unfolding ◌>>=◌
    connect uri dial = do
      set_ws (λ w. record w { uri = uri; connected = false })
      connect_internal dial

    unfoldable pub disconnect : Exec (Link S) Unit
    unfolding ◌>>=◌ await invoke
    disconnect = do
      connected ← gets (λ s. s.connected)
      when connected (do
        set_ws (λ w. record w { connected = false })
        client ← gets (λ s. s.has_client)
        sent ← gets (λ s. s.sent)
        deref client (await (net.close_result sent) (invoke cb.on_disconnected) (pure tt)))

    -- The body of the `try`.
    unfoldable pub dispatch_message : Incoming → Exec (Link S) Unit
    unfolding ◌>>=◌ await send_pong invoke_with call_with
    dispatch_message ping_message = send_pong
    dispatch_message pong_message = pure tt
    dispatch_message close_message = do
      client ← gets (λ s. s.has_client)
      sent ← gets (λ s. s.sent)
      deref client (await (net.close_result sent) (pure tt) (pure tt))
    dispatch_message (text_message extracted body) =
        await extracted (invoke_with cb.on_message body)
          (call_with cb.on_error "Task did not complete successfully while handling message.")
    dispatch_message binary_message = pure tt

    unfoldable pub handle_message : Incoming → Exec (Link S) Unit
    unfolding ◌>>=◌ invoke_with
    handle_message m =
        catch (dispatch_message m) (λ e. invoke_with cb.on_error ("Message handling error: " <> e))

    unfoldable pub handle_close : Exec (Link S) Unit
    unfolding ◌>>=◌ invoke
    handle_close = do
      set_ws (λ w. record w { connected = false })
      invoke cb.on_disconnected
      set_ws (λ w. record w { reconnects = w.reconnects + 1 })

    -- What the detached thread does when it wakes.
    unfoldable pub reconnect : Task → Exec (Link S) Unit
    unfolding ◌>>=◌
    reconnect dial = do
      set_ws (λ w. record w { reconnects = w.reconnects - 1 })
      connect_internal dial
