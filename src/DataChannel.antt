-- ===== src/DataChannel.antt =====
-- src/handlers/data_channel: a handler of one data channel, what it sends and what it receives.
pub mod Queue
pub mod ConnectionCheck
pub mod Messages
use mosaic_core.Base.{
  String, Bool, true, false, Option, none, some, List, [], ◌∷◌, ◌++◌, if◌then◌else◌, ◌||◌,
}
use mosaic_core.Exec.{
  Outcome, Exec, pure, throw, crash, lift, gets, modify, when, catch, ◌>>=◌, ◌>>◌,
}
use mosaic_core.Env.{ChannelState, connecting, open_, closing, closed, unknown, ChannelHandlers}

-- `webrtc::DataBuffer`.
pub record Buffer : Type 0 where
  pub payload : String
  pub binary : Bool

-- `webrtc::DataChannelInterface`: its label, and the state that it reports, `unknown` for a value
-- that the `switch` of `GetState` does not list.
pub record Channel : Type 0 where
  pub label : String
  pub state : ChannelState

-- `send_queue` has its front first. `handed` is what was handed to a channel by `SendAsync` and
-- `sent` what was by `Send`, the oldest first.
pub record Handler : Type 0 where
  pub label : String
  pub dc_interface : Option Channel
  pub has_observer : Bool
  pub send_queue : List Buffer
  pub is_sending : Bool
  pub handed : List Buffer
  pub sent : List Buffer

unfoldable pub new_handler : String → Handler
new_handler label = record {
  label = label;
  dc_interface = none;
  has_observer = false;
  send_queue = [];
  is_sending = false;
  handed = [];
  sent = [];
}

-- The argument may be null.
unfoldable pub set_data_channel_interface : Option Channel → Exec Handler Unit
set_data_channel_interface none = throw "DataChannelInterface cannot be null"
set_data_channel_interface (some ch) = modify (λ h. record h { dc_interface = some ch })

abbrev observe : Option Channel → Exec Handler Unit
observe none = throw "DataChannelInterface is not set"
observe (some ch) = modify (λ h. record h { has_observer = true })

unfoldable pub register_data_channel_observer : Exec Handler Unit
unfolding ◌>>=◌
register_data_channel_observer = do ch ← gets (λ h. h.dc_interface); observe ch

abbrev reported : Option Channel → ChannelState
reported none = unknown
reported (some ch) = ch.state

unfoldable pub get_state : Handler → ChannelState
get_state h = reported h.dc_interface

abbrev drop_interface : Option Channel → Exec Handler Unit
drop_interface none = pure tt
drop_interface (some ch) = modify (λ h. record h { dc_interface = none })

unfoldable pub close_data_channel : Exec Handler Unit
unfolding ◌>>=◌
close_data_channel = do ch ← gets (λ h. h.dc_interface); drop_interface ch

abbrev with_interface : Option Channel → Exec Handler Unit → Exec Handler Unit
with_interface none m = crash
with_interface (some ch) m = m

-- The private `Send`.
unfoldable pub send_now : Buffer → Exec Handler Unit
unfolding ◌>>=◌
send_now b = do
  ch ← gets (λ h. h.dc_interface)
  with_interface ch (modify (λ h. record h { sent = h.sent ++ b ∷ [] }))

-- The rest of `ProcessQueue` once a buffer is at the front.
unfoldable pub send_front : Buffer → List Buffer → Exec Handler Unit
unfolding ◌>>=◌
send_front b rest = do
  modify (λ h. record h { is_sending = true; send_queue = rest })
  ch ← gets (λ h. h.dc_interface)
  with_interface ch (modify (λ h. record h { handed = h.handed ++ b ∷ [] }))

abbrev pub take_front : Bool → List Buffer → Exec Handler Unit
take_front true queue = pure tt
take_front false [] = pure tt
take_front false (b ∷ rest) = send_front b rest

unfoldable pub process_queue : Exec Handler Unit
unfolding send_front
process_queue h = take_front h.is_sending h.send_queue h

unfoldable pub send_async : Buffer → Exec Handler Unit
unfolding process_queue ◌>>=◌
send_async b = do modify (λ h. record h { send_queue = h.send_queue ++ b ∷ [] }); process_queue

-- The callback of `SendAsync`; an error is only written to the log.
unfoldable pub on_sent : Exec Handler Unit
unfolding process_queue ◌>>=◌
on_sent = do modify (λ h. record h { is_sending = false }); process_queue

abbrev is_open : ChannelState → Bool
is_open open_ = true
is_open _ = false

unfoldable pub sendable : Handler → Bool
unfolding get_state
sendable h = is_open (get_state h)

unfoldable pub send : Buffer → Bool → Exec Handler Unit
unfolding sendable send_now send_async ◌>>=◌
send b is_async = do
  ready ← gets sendable
  when ready (if is_async then send_async b else send_now b)

-- `SendString`, `SendStringAsByte`, and `SendJson` on the written text.
unfoldable pub send_text : String → Bool → Bool → Exec Handler Unit
unfolding sendable send ◌>>=◌
send_text text binary is_async = do
  ready ← gets sendable
  when ready (send (record { payload = text; binary = binary }) is_async)

-- `DataChannelReceivable::OnMessage`: `convert` is `ConvertBufferToData`, `handle` the subclass's
-- `HandleData` on a state of its own.
unfoldable pub on_message :
    {S T : Type 0} → (Buffer → Outcome T) → (T → Exec S Unit) → Buffer → Exec S Unit
unfolding ◌>>=◌
on_message convert handle b = catch (do v ← lift (convert b); handle v) (λ e. pure tt)

-- The interface that the connector uses; `AfterCreate` is empty unless a subclass defines it.
abbrev pub data_channels : ChannelHandlers
data_channels = record {
  Handler = Handler;
  Channel = Channel;
  channel_label = λ ch. ch.label;
  get_label = λ h. h.label;
  get_state = get_state;
  set_data_channel_interface = λ ch. set_data_channel_interface (some ch);
  register_data_channel_observer = register_data_channel_observer;
  after_create = pure tt;
  close_data_channel = close_data_channel;
}
