-- ===== src/DataChannel/ConnectionCheck.antt =====
-- src/auto_configurer/impl/connection_check_dc_handler.cpp and its header: the pair of handlers that
-- sends back what comes in.
use mosaic_core.Base.{
  String, ◌<>◌, ◌≡◌, refl, Bool, true, false, some, List, [], ◌∷◌, ◌++◌, append_assoc, append-nil,
  arith, map, Bool-cases, inl, inr,
}
use mosaic_core.Exec.{Exec, pure, ok, ◌>>=◌, ◌>>◌}
use mosaic_core.Env.{open_}
use mosaic_core.DataChannel.{
  Buffer, Channel, Handler, new_handler, send_text, send, sendable, get_state, send_async,
  send_front, process_queue,
}
use mosaic_core.DataChannel.Queue.{IsBusy}

-- `Configure`: the receiver, then the sender.
unfoldable configure : String → List Handler
configure label = new_handler (label <> "-receiver") ∷ new_handler (label <> "-sender") ∷ []

-- `HandleData` of the receiver, on its sender.
unfoldable pub handle_data : String → Exec Handler Unit
unfolding send_text
handle_data text = send_text text false true

unfoldable pub handle_all : List String → Exec Handler Unit
unfolding ◌>>=◌
handle_all [] = pure tt
handle_all (text ∷ rest) = handle_data text >> handle_all rest

abbrev pub answer : String → Buffer
answer text = record { payload = text; binary = false }

is_sent :
    (text : String) (h : Handler) (ch : Channel)
    → h.dc_interface ≡ some ch
    → ch.state ≡ open_
    → handle_data text h ≡ send_async (answer text) h
unfolding handle_data sendable get_state send
is_sent text h ch attached ready = ground arith

-- `SendAsync` without the channel: a sender that is busy lets the buffer wait at the end of its queue,
-- one that is not hands it over.
abbrev pub described : Bool → Buffer → Handler → Handler
described true b h = record h { send_queue = h.send_queue ++ b ∷ [] }
described false b h = record h { is_sending = true; handed = h.handed ++ b ∷ [] }

pub send_async_lem :
    (b : Buffer) (h : Handler) (ch : Channel)
    → IsBusy h
    → h.dc_interface ≡ some ch
    → send_async b h ≡ (ok tt, described h.is_sending b h)
unfolding send_async process_queue send_front
send_async_lem b h ch w attached = elim (Bool-cases h.is_sending) [
  | inl e ↦ ground arith
  | inr e ↦ let none_wait = w.waits e in ground arith
]

-- What of the answers is handed to the channel, and what of them waits.
abbrev pub at_once : Bool → List Buffer → List Buffer
at_once true bs = []
at_once false [] = []
at_once false (b ∷ bs) = b ∷ []

abbrev pub waiting : Bool → List Buffer → List Buffer
waiting true bs = bs
waiting false [] = []
waiting false (b ∷ bs) = bs

while_busy :
    (texts : List String) (h : Handler) (ch : Channel)
    → h.is_sending ≡ true
    → h.dc_interface ≡ some ch
    → ch.state ≡ open_
    → handle_all texts h ≡ (ok tt, record h { send_queue = h.send_queue ++ map answer texts })
unfolding handle_all
while_busy [] h ch busy attached ready = ground (arith, append-nil h.send_queue)
while_busy (text ∷ rest) h ch busy attached ready =
    let h' = record h { send_queue = h.send_queue ++ answer text ∷ [] } in
    ground (
      arith,
      is_sent text h ch attached ready,
      send_async_lem (answer text) h ch (record { waits = λ e. ground arith }) attached,
      while_busy rest h' ch busy attached ready,
      append_assoc h.send_queue (answer text ∷ []) (map answer rest),
    )

while_idle :
    (texts : List String) (h : Handler) (ch : Channel)
    → h.send_queue ≡ []
    → h.is_sending ≡ false
    → h.dc_interface ≡ some ch
    → ch.state ≡ open_
    → let r = handle_all texts h in
      (r.0 ≡ ok tt)
      × (r.1.handed ≡ h.handed ++ at_once h.is_sending (map answer texts))
      × (r.1.send_queue ≡ h.send_queue ++ waiting h.is_sending (map answer texts))
unfolding handle_all
while_idle [] h ch none_wait idle attached ready =
    ground (arith, append-nil h.handed, append-nil h.send_queue)
while_idle (text ∷ rest) h ch none_wait idle attached ready = ground (
  arith,
  is_sent text h ch attached ready,
  send_async_lem (answer text) h ch (record { waits = λ e. none_wait }) attached,
  while_busy rest (described false (answer text) h) ch refl attached ready,
)

-- While its channel is open, the sender answers every message with its own text, and no call fails:
-- if no send runs, the first answer is handed to the channel at once and the others wait in the
-- order in which the messages came, and if one runs, they all wait behind what waits already. No
-- send is taken to complete in between, and nothing waits while no send runs.
pub handle_all_lem :
    (texts : List String) (h : Handler) (ch : Channel)
    → IsBusy h
    → h.dc_interface ≡ some ch
    → ch.state ≡ open_
    → let r = handle_all texts h in
      (r.0 ≡ ok tt)
      × (r.1.handed ≡ h.handed ++ at_once h.is_sending (map answer texts))
      × (r.1.send_queue ≡ h.send_queue ++ waiting h.is_sending (map answer texts))
unfolding handle_all
handle_all_lem texts h ch w attached ready = elim (Bool-cases h.is_sending) [
  | inl e ↦ ground (arith, while_busy texts h ch e attached ready, append-nil h.handed)
  | inr e ↦ while_idle texts h ch (w.waits e) e attached ready
]
