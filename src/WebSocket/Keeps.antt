-- ===== src/WebSocket/Keeps.antt =====
-- What holds of the owner is kept by the client if the callbacks keep it
-- (src/signaling/websocket_client_impl.cpp).
use mosaic_core.Base.{String, Option, none, some}
use mosaic_core.Exec.{Exec, modify}
use mosaic_core.Exec.Keeps.{Keeps, Keeps-pure, Keeps-throw, keeps_rules}
use mosaic_core.WebSocket.{
  Ws, Net, Link, Callbacks, Task, completed, canceled, failed, Frame, Incoming, ping_message,
  pong_message, close_message, binary_message, text_message, set_ws, invoke, invoke_with, call_with,
  await, transmit, send_pong, send, connect_internal, connect, disconnect, dispatch_message,
  handle_message, handle_close, reconnect,
}

module _ {S : Type 0} (Q : S → Type 0) where
  -- A predicate on the owner, seen on the pair.
  abbrev pub Owner : Link S → Type 0
  Owner s = Q s.owner

  abbrev pub KeepsOption : Option (Exec (Link S) Unit) → Type 0
  KeepsOption none = Unit
  KeepsOption (some f) = Keeps Owner f

  abbrev pub KeepsOptionWith : Option (String → Exec (Link S) Unit) → Type 0
  KeepsOptionWith none = Unit
  KeepsOptionWith (some f) = (e : String) → Keeps Owner (f e)

  pub record KeepsCallbacks (cb : Callbacks S) : Type 0 where
    pub on_connected : KeepsOption cb.on_connected
    pub on_disconnected : KeepsOption cb.on_disconnected
    pub on_error : KeepsOptionWith cb.on_error

  -- What the callback for messages does with this one, if it gets it, keeps the predicate.
  abbrev pub Hears : Option (String → Exec (Link S) Unit) → Incoming → Type 0
  Hears (some f) (text_message completed body) = Keeps Owner (f body)
  Hears _ _ = Unit

  Keeps-set_ws : (f : Ws → Ws) → Keeps Owner (set_ws f)
  unfolding modify
  Keeps-set_ws f = record { at = λ s h. h }

  Keeps-invoke : (f : Option (Exec (Link S) Unit)) → KeepsOption f → Keeps Owner (invoke f)
  unfolding invoke
  Keeps-invoke none k = Keeps-pure tt
  Keeps-invoke (some f) k = k

  Keeps-invoke_with :
      (f : Option (String → Exec (Link S) Unit)) (e : String)
      → KeepsOptionWith f
      → Keeps Owner (invoke_with f e)
  unfolding invoke_with
  Keeps-invoke_with none e k = Keeps-pure tt
  Keeps-invoke_with (some f) e k = k e

  Keeps-call_with :
      (f : Option (String → Exec (Link S) Unit)) (e : String)
      → KeepsOptionWith f
      → Keeps Owner (call_with f e)
  unfolding call_with
  Keeps-call_with none e k = Keeps-throw "bad_function_call"
  Keeps-call_with (some f) e k = k e

  Keeps-await :
      (t : Task) (m n : Exec (Link S) Unit)
      → Keeps Owner m
      → Keeps Owner n
      → Keeps Owner (await t m n)
  unfolding await
  Keeps-await completed m n km kn = km
  Keeps-await canceled m n km kn = kn
  Keeps-await (failed e) m n km kn = Keeps-throw e

  ruleset client_rules =
      (keeps_rules, Keeps-set_ws, Keeps-invoke, Keeps-invoke_with, Keeps-call_with, Keeps-await)

  module _ (net : Net) where
    Keeps-transmit : (f : Frame) → Keeps Owner (transmit net f)
    unfolding transmit
    Keeps-transmit f = search client_rules

    Keeps-send_pong : Keeps Owner (send_pong net)
    unfolding send_pong
    Keeps-send_pong = search client_rules

    pub Keeps-send : (message : String) → Keeps Owner (send net message)
    unfolding send
    Keeps-send message = search (client_rules, Keeps-transmit)

    pub Keeps-disconnect :
        (cb : Callbacks S) → KeepsOption cb.on_disconnected → Keeps Owner (disconnect net cb)
    unfolding disconnect
    Keeps-disconnect cb k = search (client_rules, k) depth 8

    module _ (cb : Callbacks S) (k : KeepsCallbacks cb) where
      Keeps-connect_internal : (dial : Task) → Keeps Owner (connect_internal net cb dial)
      unfolding connect_internal
      Keeps-connect_internal dial = search (client_rules, k.on_connected) depth 7

      Keeps-connect : (uri : String) (dial : Task) → Keeps Owner (connect net cb uri dial)
      unfolding connect
      Keeps-connect uri dial = search (client_rules, Keeps-connect_internal)

      Keeps-heard :
          (f : Option (String → Exec (Link S) Unit)) (body : String)
          → Hears f (text_message completed body)
          → Keeps Owner (invoke_with f body)
      unfolding invoke_with
      Keeps-heard none body h = Keeps-pure tt
      Keeps-heard (some f) body h = h

      Keeps-dispatch_message :
          (m : Incoming) → Hears cb.on_message m → Keeps Owner (dispatch_message net cb m)
      unfolding dispatch_message await
      Keeps-dispatch_message ping_message h = Keeps-send_pong
      Keeps-dispatch_message pong_message h = Keeps-pure tt
      Keeps-dispatch_message close_message h = search client_rules
      Keeps-dispatch_message (text_message completed body) h = Keeps-heard cb.on_message body h
      Keeps-dispatch_message (text_message canceled body) h =
          Keeps-call_with cb.on_error _ k.on_error
      Keeps-dispatch_message (text_message (failed e) body) h = Keeps-throw e
      Keeps-dispatch_message binary_message h = Keeps-pure tt

      pub Keeps-handle_message :
          (m : Incoming) → Hears cb.on_message m → Keeps Owner (handle_message net cb m)
      unfolding handle_message
      Keeps-handle_message m h =
          let sorted = Keeps-dispatch_message m h in search (client_rules, sorted, k.on_error)

      pub Keeps-handle_close : Keeps Owner (handle_close net cb)
      unfolding handle_close
      Keeps-handle_close = search (client_rules, k.on_disconnected)

      pub Keeps-reconnect : (dial : Task) → Keeps Owner (reconnect net cb dial)
      unfolding reconnect
      Keeps-reconnect dial = search (client_rules, Keeps-connect_internal)
