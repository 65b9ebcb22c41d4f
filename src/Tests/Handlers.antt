-- ===== src/Tests/Handlers.antt =====
-- The theorems on the handlers and the log, at concrete values.
use mosaic_core.Base.{String, ◌≡◌, refl, true, false, some, List, [], ◌∷◌, ◌++◌, arith}
use mosaic_core.Exec.{ok}
use mosaic_core.DataChannel.{
  Buffer, Handler, new_handler, on_sent, send_async, process_queue, set_data_channel_interface,
}
use mosaic_core.DataChannel.ConnectionCheck.{handle_all, answer, handle_all_lem}
use mosaic_core.DataChannel.Queue
use mosaic_core.DataChannel.Queue.{
  Op, push, sent, attach, IsBusy, run, all_pushed, completions, run_in_order,
  run-new_handler-IsBusy, drained, on_sent_after_close,
}
use mosaic_core.Recorder.{VideoRecorder, Recordable, recording, Files}
use mosaic_core.Recorder.Invariant.{
  IsValid, start, frame, pause, stop, use_track, use_track-IsValid,
}
use mosaic_core.Recorder.{new_recordable}
use mosaic_core.Tests.Setup.{channel, sender}

abbrev text_a : Buffer
text_a = record { payload = "a"; binary = false }

abbrev bytes_b : Buffer
bytes_b = record { payload = "b"; binary = true }

abbrev ops : List Op
ops = attach channel ∷ push text_a ∷ push bytes_b ∷ sent ∷ push text_a ∷ []

abbrev after_ops : Handler
after_ops = (run ops (new_handler "pose")).1

runs : (run ops (new_handler "pose")).0 ≡ ok tt
unfolding run Queue.apply new_handler on_sent send_async process_queue set_data_channel_interface
runs = ground arith

run_in_order_example : after_ops.handed ++ after_ops.send_queue ≡ text_a ∷ bytes_b ∷ text_a ∷ []
run_in_order_example = run_in_order "pose" ops runs

drained_example :
    let r = run (completions 3) sender in
    (r.0 ≡ ok tt)
    × (r.1.send_queue ≡ [])
    × (r.1.is_sending ≡ false)
    × (r.1.handed ≡ sender.send_queue)
drained_example = drained sender channel refl

abbrev files : Files
files = record {
  exists = λ p. true;
  create_directories = λ p. true;
  is_directory = λ p. true;
  writable = λ p. true;
}

abbrev calls : List (mosaic_core.Recorder.Invariant.Op String String)
calls = pause ∷ start true ∷ frame "f1" ∷ pause ∷ frame "f2" ∷ stop ∷ start true ∷ []

use_track-IsValid_example : IsValid (use_track files calls (new_recordable files "30" true))
use_track-IsValid_example = use_track-IsValid files "30" true calls

abbrev idle : Handler
idle = record (new_handler "check") { dc_interface = some channel }

handle_all_lem_example :
    let r = handle_all ("x" ∷ "y" ∷ []) idle in
    (r.0 ≡ ok tt) × (r.1.handed ≡ answer "x" ∷ []) × (r.1.send_queue ≡ answer "y" ∷ [])
unfolding new_handler
handle_all_lem_example =
    handle_all_lem ("x" ∷ "y" ∷ []) idle channel (record { waits = λ e. refl }) refl refl
