-- ===== src/DataChannel/Messages.antt =====
-- src/handlers/data_channel/data_channel_receivable.cpp with its header, `DataChannelObserver` of
-- src/handlers/data_channel/data_channel_handler.cpp, and `SendJson` of data_channel_sendable.cpp: from
-- a sender to the handler of the other side.
use mosaic_core.Base.{
  String, ◌≡◌, refl, Bool, true, false, Option, none, some, List, [], ◌∷◌, ◌++◌, ℕ, arith,
}
use mosaic_core.Exec.{Outcome, ok, throws, Exec, pure, gets, when, catch, ◌>>=◌}
use mosaic_core.Env.{open_}
use mosaic_core.DataChannel.{
  Buffer, Channel, Handler, on_message, send, sendable, get_state, send_now,
}
use mosaic_core.DataChannel.ConnectionCheck.{described, send_async_lem}
use mosaic_core.DataChannel.Queue.{IsBusy}

-- `ConvertBufferToData` of the three receivables.
unfoldable pub convert_string : Buffer → Outcome String
convert_string b = ok b.payload

abbrev parsed_or_throws : {V : Type 0} → Option V → Outcome V
parsed_or_throws none = throws "JSON parsing failed: "
parsed_or_throws (some v) = ok v

unfoldable pub convert_json : {V : Type 0} → (String → Option V) → Buffer → Outcome V
convert_json parse b = parsed_or_throws (parse b.payload)

-- `bytes` reads the payload as numbers below 256.
unfoldable pub convert_bytes : (String → List ℕ) → Buffer → Outcome (List ℕ)
convert_bytes bytes b = ok (bytes b.payload)

-- The callback that `RegisterDataChannelObserver` gives to the observer: `OnMessage` of a receivable,
-- and nothing for another handler.
unfoldable pub message_callback :
    {S : Type 0} → Option (Buffer → Exec S Unit) → Buffer → Exec S Unit
unfolding pure
message_callback none b = pure tt
message_callback (some on_message) b = on_message b

-- `SendJson`.
unfoldable pub send_json : {V : Type 0} → (V → String) → V → Bool → Exec Handler Unit
unfolding sendable send ◌>>=◌
send_json write v is_async = do
  ready ← gets sendable
  when ready (send (record { payload = write v; binary = false }) is_async)

-- A handler behind a send: what is sent in the other mode is handed to the channel at once, as is what is
-- queued while no send runs; while one runs, it waits.
abbrev pub sent_off : Bool → Buffer → Handler → Handler
sent_off true b h = described h.is_sending b h
sent_off false b h = record h { sent = h.sent ++ b ∷ [] }

send_lem :
    (b : Buffer) (is_async : Bool) (h : Handler) (ch : Channel)
    → IsBusy h
    → h.dc_interface ≡ some ch
    → ch.state ≡ open_
    → send b is_async h ≡ (ok tt, sent_off is_async b h)
unfolding send sendable get_state send_now
send_lem b true h ch w attached ready = ground (arith, send_async_lem b h ch w attached)
send_lem b false h ch w attached ready = ground arith

is_sendable :
    (h : Handler) (ch : Channel) → h.dc_interface ≡ some ch → ch.state ≡ open_ → sendable h ≡ true
unfolding sendable get_state
is_sendable h ch attached ready = ground arith

module _ {S V : Type 0} (write : V → String) (parse : String → Option V)
    (handle : V → Exec S Unit) where
  -- A JSON value that is sent on an open channel goes out as one text: it is handed to the channel
  -- at once, behind what was handed over before, unless it is queued while another send runs, when
  -- it waits at the end of the queue and nothing else changes. A JSON receivable that gets this
  -- text handles that very value; what the handler throws is caught. The reader is taken to read
  -- what the writer wrote, and nothing to wait while no send runs.
  pub json_arrives :
      (v : V) (is_async : Bool) (h : Handler) (ch : Channel) (s : S)
      → parse (write v) ≡ some v
      → IsBusy h
      → h.dc_interface ≡ some ch
      → ch.state ≡ open_
      → let b : Buffer = record { payload = write v; binary = false } in
        (send_json write v is_async h ≡ (ok tt, sent_off is_async b h))
        × (message_callback (some (on_message (convert_json parse) handle)) b s
            ≡ catch (handle v) (λ e. pure tt) s)
  unfolding send_json convert_json message_callback on_message
  json_arrives v is_async h ch s reads w attached ready =
      let b : Buffer = record { payload = write v; binary = false } in
      let open_now = is_sendable h ch attached ready in
      (rw open_now (send_lem b is_async h ch w attached ready), rw reads refl)
