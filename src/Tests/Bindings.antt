-- ===== src/Tests/Bindings.antt =====
-- The theorems on the messages, the frames and the Python bindings, at concrete values.
use mosaic_core.Base.{
  ℕ, zero, suc, ◌+◌, ◌*◌, ◌≡◌, refl, String, ◌==◌, Bool, true, false, Option, none, some, List, [],
  ◌∷◌, not, if◌then◌else◌, leb,
}
use mosaic_core.Base.Int.{pos, negsuc}
use mosaic_core.Exec.{ok, Exec, pure, modify, catch}
use mosaic_core.Exec.Fallible.{◌>>=◌}
use mosaic_core.DataChannel
use mosaic_core.DataChannel.{Buffer, new_handler, on_message}
use mosaic_core.DataChannel.Messages.{convert_json, message_callback, send_json, json_arrives}
use mosaic_core.MediaTrack.{Track, Source}
use mosaic_core.MediaTrack.Frames.{Mat, Rgb24}
use mosaic_core.Recorder.{Recordable, not_recording}
use mosaic_core.Python.Json.{
  Value, int_value, uint_value, string_value, array_value, object_value, no_items, item, no_members,
  member, Object, int_object, str_object, list_object, dict_object, no_elements, element,
  no_entries, entry, str_key, json_to_pyobj, pyobj_to_json,
}
use mosaic_core.Python.Json.Bounds.{InRange, pyobj_to_json-InRange}
use mosaic_core.Python.Json.RoundTrip.{is_plain, signed, py, round_trip}
use mosaic_core.Python.Receive.{handle_json, python_sees}
use mosaic_core.Python.Frames.{Picture, colour}
use mosaic_core.Tests.Setup.{channel}

abbrev all_text : String → Bool
all_text s = not (s == "not UTF-8")

-- {"a": [7, -1], "b": "x"}
abbrev message : Value ℕ
message = object_value (
    member "a" (array_value (item (uint_value 7) (item (int_value (negsuc 0)) no_items)))
      (member "b" (string_value "x") no_members))

abbrev message_back : Value ℕ
message_back = object_value (
    member "a" (array_value (item (int_value (pos 7)) (item (int_value (negsuc 0)) no_items)))
      (member "b" (string_value "x") no_members))

message_plain : is_plain all_text message ≡ true
unfolding is_plain
message_plain = refl

signed-message : signed message ≡ message_back
unfolding signed
signed-message = refl

round_trip_example :
    (json_to_pyobj all_text message >>= pyobj_to_json all_text) ≡ ok (signed message)
round_trip_example = round_trip all_text message message_plain

abbrev python_list : Object ℕ
python_list = list_object (element (int_object (pos 7)) (element (str_object "x") no_elements))

abbrev json_list : Value ℕ
json_list = array_value (item (int_value (pos 7)) (item (string_value "x") no_items))

list_converts : pyobj_to_json all_text python_list ≡ ok json_list
unfolding pyobj_to_json
list_converts = refl

pyobj_to_json-InRange_example : InRange json_list
pyobj_to_json-InRange_example = pyobj_to_json-InRange all_text python_list json_list list_converts

-- A Python method that keeps what it is called with.
abbrev remember : Object ℕ → Exec (List (Object ℕ)) Unit
remember p = modify (λ seen_before. p ∷ seen_before)

abbrev parse_numbers : String → Option (Value ℕ)
parse_numbers s =
    if s == "[1,2]"
    then some (array_value (item (int_value (pos 1)) (item (int_value (pos 2)) no_items)))
    else none

plain_numbers :
    is_plain {Float = ℕ} all_text
      (array_value (item (int_value (pos 1)) (item (int_value (pos 2)) no_items)))
    ≡ true
unfolding is_plain
plain_numbers = refl

python_sees_example :
    message_callback
      (some (on_message (convert_json parse_numbers) (handle_json all_text remember)))
      (record { payload = "[1,2]"; binary = false })
      []
    ≡ catch
        (remember (dict_object (entry (str_key "") (int_object (pos 2)) no_entries)))
        (λ e. pure tt)
        []
unfolding py
python_sees_example =
    python_sees all_text remember parse_numbers (record { payload = "[1,2]"; binary = false })
      (array_value (item (int_value (pos 1)) (item (int_value (pos 2)) no_items))) [] refl
      plain_numbers

abbrev sender : DataChannel.Handler
sender = record (new_handler "pose") { dc_interface = some channel }

abbrev numeral : ℕ → String
numeral n = if leb n 4 then "4" else "5"

abbrev read_numeral : String → Option ℕ
read_numeral s = if s == "5" then some 5 else none

abbrev count : ℕ → Exec ℕ Unit
count n = modify (λ m. n + m)

json_arrives_example :
    let b : Buffer = record { payload = "5"; binary = false } in
    (send_json numeral 5 true sender
      ≡ (ok tt, record sender { is_sending = true; handed = b ∷ [] }))
    × (message_callback (some (on_message (convert_json read_numeral) count)) b 2
        ≡ catch (count 5) (λ e. pure tt) 2)
unfolding new_handler
json_arrives_example =
    json_arrives numeral read_numeral count 5 true sender channel 2 refl
      (record { waits = λ e. refl }) refl refl

-- A conversion that touches what libyuv documents.
abbrev touches : ℕ → ℕ → ℕ → ℕ
touches stride width zero = 0
touches stride width (suc r) = r * stride + 3 * width

abbrev libyuv : Rgb24
libyuv = record {
  extent = touches;
  creates_buffer = λ width height. leb (width * height) 2147483647;
}

abbrev live : Source Mat
live = record { is_running = true; stop_flag = false; frames = [] }

abbrev quiet : Recordable ℕ Mat
quiet = record { recordable = false; video_recorder = none; record_state = not_recording }

abbrev track : Track Unit ℕ Mat
track = record { track_name = "front"; source = some live; recorder = quiet; extra = tt }

abbrev filming : Recordable ℕ Mat
filming = record {
  recordable = true;
  video_recorder = some (record {
    record_file_path = "./recordings";
    fps = 30;
    width = 640;
    height = 480;
    is_opened = false;
    frames = [];
  });
  record_state = not_recording;
}

abbrev video : Track Unit ℕ Mat
video = record { track_name = "front"; source = some live; recorder = filming; extra = tt }

abbrev coloured : Picture
coloured = colour 480 640 3
