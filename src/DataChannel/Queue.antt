-- ===== src/DataChannel/Queue.antt =====
-- The send queue of src/handlers/data_channel/data_channel_handler.cpp: its runs over
-- several calls and completions.
use mosaic_core.Base.{
  String, ◌≡◌, refl, sym, ◌∙◌, Bool, true, false, some, List, [], ◌∷◌, ◌++◌, append_assoc,
  append-nil, arith, ℕ, zero, suc, length,
}
use mosaic_core.Exec.{Exec, pure, ok, fault, modify, ◌>>=◌, ◌>>◌}
use mosaic_core.DataChannel.{
  Buffer, Channel, Handler, new_handler, send_async, on_sent, process_queue, send_front, take_front,
  set_data_channel_interface, close_data_channel,
}

-- What happens to the queue: the program sends, WebRTC has sent, the channel is replaced or closed.
pub data Op : Type 0 where
  push : Buffer → Op
  sent : Op
  attach : Channel → Op
  close : Op

unfoldable pub apply : Op → Exec Handler Unit
apply (push b) = send_async b
apply sent = on_sent
apply (attach ch) = set_data_channel_interface (some ch)
apply close = close_data_channel

abbrev pub pushed : Op → List Buffer
pushed (push b) = b ∷ []
pushed _ = []

-- Only while a send is under way may buffers wait.
pub record IsBusy (h : Handler) : Type 0 where
  pub waits : h.is_sending ≡ false → h.send_queue ≡ []

apply-IsBusy : (op : Op) (h : Handler) → IsBusy h → IsBusy (apply op h).1
unfolding apply send_async on_sent set_data_channel_interface close_data_channel modify
apply-IsBusy (push b) h w = ground arith
apply-IsBusy sent h w = ground arith
apply-IsBusy (attach ch) h w = ground arith
apply-IsBusy close h w = ground arith

order-take_front :
    (busy : Bool) (q : List Buffer) (h : Handler)
    → h.send_queue ≡ q
    → (take_front busy q h).0 ≡ ok tt
    → (take_front busy q h).1.handed ++ (take_front busy q h).1.send_queue
      ≡ h.handed ++ h.send_queue
unfolding send_front modify
order-take_front true q h e o = refl
order-take_front false [] h e o = refl
order-take_front false (b ∷ rest) h e o = ground (arith, append_assoc h.handed (b ∷ []) rest)

pub order-process_queue :
    (h : Handler)
    → (process_queue h).0 ≡ ok tt
    → (process_queue h).1.handed ++ (process_queue h).1.send_queue ≡ h.handed ++ h.send_queue
unfolding process_queue
order-process_queue h o = order-take_front h.is_sending h.send_queue h refl o

-- A call that does not fault keeps the order.
order-apply :
    (op : Op) (h : Handler)
    → (apply op h).0 ≡ ok tt
    → (apply op h).1.handed ++ (apply op h).1.send_queue ≡ (h.handed ++ h.send_queue) ++ pushed op
unfolding apply send_async on_sent set_data_channel_interface close_data_channel modify
order-apply (push b) h o =
    order-process_queue (record h { send_queue = h.send_queue ++ b ∷ [] }) o
    ∙ sym (append_assoc h.handed h.send_queue (b ∷ []))
order-apply sent h o =
    order-process_queue (record h { is_sending = false }) o
    ∙ sym (append-nil (h.handed ++ h.send_queue))
order-apply (attach ch) h o = sym (append-nil (h.handed ++ h.send_queue))
order-apply close h o = ground (arith, append-nil (h.handed ++ h.send_queue))

-- The operations run until one of them faults.
unfoldable pub run : List Op → Exec Handler Unit
unfolding ◌>>=◌
run [] = pure tt
run (op ∷ ops) = apply op >> run ops

abbrev pub all_pushed : List Op → List Buffer
all_pushed [] = []
all_pushed (op ∷ ops) = pushed op ++ all_pushed ops

order-run :
    (ops : List Op) (h : Handler)
    → (run ops h).0 ≡ ok tt
    → (run ops h).1.handed ++ (run ops h).1.send_queue
      ≡ (h.handed ++ h.send_queue) ++ all_pushed ops
unfolding run
order-run [] h o = sym (append-nil (h.handed ++ h.send_queue))
order-run (op ∷ ops) h o = ground (
  arith,
  order-apply op h,
  order-run ops (apply op h).1,
  append_assoc (h.handed ++ h.send_queue) (pushed op) (all_pushed ops),
)

-- With `SendAsync` as the only way to send, and if every call returns, that is, none goes through a null
-- pointer, what was handed to the channels followed by what still waits is what the program sent, in
-- its order, nothing lost and nothing twice.
pub run_in_order :
    (label : String) (ops : List Op)
    → (run ops (new_handler label)).0 ≡ ok tt
    → (run ops (new_handler label)).1.handed ++ (run ops (new_handler label)).1.send_queue
      ≡ all_pushed ops
unfolding new_handler
run_in_order label ops o = order-run ops (new_handler label) o

run-IsBusy : (ops : List Op) (h : Handler) → IsBusy h → IsBusy (run ops h).1
unfolding run
run-IsBusy [] h w = w
run-IsBusy (op ∷ ops) h w = ground (arith, apply-IsBusy op h w, run-IsBusy ops (apply op h).1)

-- A buffer waits in the queue only while a send is under way, after any operations, also if one of
-- them faults.
pub run-new_handler-IsBusy :
    (label : String) (ops : List Op) → IsBusy (run ops (new_handler label)).1
unfolding new_handler
run-new_handler-IsBusy label ops = run-IsBusy ops (new_handler label) (record { waits = λ e. refl })

abbrev pub completions : ℕ → List Op
completions zero = []
completions (suc n) = sent ∷ completions n

last_sent :
    (h : Handler) → h.send_queue ≡ [] → apply sent h ≡ (ok tt, record h { is_sending = false })
unfolding apply on_sent
last_sent h waiting = ground arith

step_sent :
    (b : Buffer) (rest : List Buffer) (h : Handler) (ch : Channel)
    → h.dc_interface ≡ some ch
    → h.send_queue ≡ b ∷ rest
    → apply sent h
      ≡ (ok tt, record h { is_sending = true; send_queue = rest; handed = h.handed ++ b ∷ [] })
unfolding apply on_sent
step_sent b rest h ch attached waiting = ground arith

drain :
    (q : List Buffer) (h : Handler) (ch : Channel)
    → h.dc_interface ≡ some ch
    → h.send_queue ≡ q
    → let r = run (completions (suc (length q))) h in
      (r.0 ≡ ok tt)
      × (r.1.send_queue ≡ [])
      × (r.1.is_sending ≡ false)
      × (r.1.handed ≡ h.handed ++ q)
unfolding run
drain [] h ch attached waiting = ground (arith, last_sent h waiting, append-nil h.handed)
drain (b ∷ rest) h ch attached waiting =
    let h' : Handler = record h {
      is_sending = true;
      send_queue = rest;
      handed = h.handed ++ b ∷ [];
    } in
    ground (
      arith,
      step_sent b rest h ch attached waiting,
      drain rest h' ch attached refl,
      append_assoc h.handed (b ∷ []) rest,
    )

-- While the channel stays, each completed send starts the next one: as many completions as buffers
-- wait, and one more, hand over the whole queue in its order and leave the handler idle.
pub drained :
    (h : Handler) (ch : Channel)
    → h.dc_interface ≡ some ch
    → let r = run (completions (suc (length h.send_queue))) h in
      (r.0 ≡ ok tt)
      × (r.1.send_queue ≡ [])
      × (r.1.is_sending ≡ false)
      × (r.1.handed ≡ h.handed ++ h.send_queue)
drained h ch attached = drain h.send_queue h ch attached refl

-- A completed send after the channel was closed calls through a null pointer if a buffer waits.
pub on_sent_after_close :
    (b : Buffer) (rest : List Buffer) (h : Handler)
    → h.send_queue ≡ b ∷ rest
    → (on_sent (close_data_channel h).1).0 ≡ fault
unfolding on_sent close_data_channel
on_sent_after_close b rest h waiting = ground arith
