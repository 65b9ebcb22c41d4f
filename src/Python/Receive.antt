-- ===== src/Python/Receive.antt =====
-- python/bindings/bind_data_channel.cpp: the three trampolines, which give what a channel receives to
-- the method `handle_data` of a Python class.
use mosaic_core.Base.{
  String, ◌≡◌, refl, Bool, true, Option, some, List, [], ◌∷◌, ℕ, if◌then◌else◌, Bool-cases, inl,
  inr,
}
use mosaic_core.Base.Int.{pos}
use mosaic_core.Exec.{Exec, ok, pure, catch, lift, ◌>>=◌}
use mosaic_core.DataChannel.{Buffer, on_message}
use mosaic_core.DataChannel.Messages.{convert_string, convert_json, message_callback}
use mosaic_core.Python.Json.{
  Value, Object, str_object, int_object, list_object, Elements, no_elements, element, text_across,
  cast,
}
use mosaic_core.Python.Json.RoundTrip.{is_plain}
use mosaic_core.Python.Json.Caster.{seen, cast_lem}

abbrev int_list : {Float : Type 0} → List ℕ → Elements Float
int_list [] = no_elements
int_list (n ∷ rest) = element (int_object (pos n)) (int_list rest)

-- `handle` is the Python method; what it raises comes back as a C++ exception.
module _ {Float S : Type 0} (is_text : String → Bool) (handle : Object Float → Exec S Unit) where
  unfoldable pub handle_string : String → Exec S Unit
  unfolding text_across ◌>>=◌
  handle_string text = lift (text_across is_text text) >>= λ t. handle (str_object t)

  unfoldable pub handle_json : Value Float → Exec S Unit
  unfolding cast ◌>>=◌
  handle_json v = lift (cast is_text v) >>= handle

  unfoldable pub handle_bytes : List ℕ → Exec S Unit
  handle_bytes bytes = handle (list_object (int_list bytes))

  -- A text reaches the Python method of a string receivable if it is UTF-8; another payload, and an
  -- exception of the method, is swallowed, and the method is not called with such a payload.
  pub text_arrives :
      (b : Buffer) (s : S)
      → message_callback (some (on_message convert_string handle_string)) b s ≡ (
          if is_text b.payload
          then catch (handle (str_object b.payload)) (λ e. pure tt) s
          else (ok tt, s))
  unfolding message_callback on_message convert_string handle_string
  text_arrives b s = elim (Bool-cases (is_text b.payload)) [ inl e ↦ rw e refl | inr e ↦ rw e refl ]

  -- The Python method of a JSON receivable gets a dictionary whatever the message was: the members of
  -- an object, the last element of an array under the name "", and an empty dictionary for a number, a
  -- text, a Boolean or null. The message is taken to be plain: its texts can pass to Python, its
  -- integers have at most 63 bits, and its members stand in order.
  pub python_sees :
      (parse : String → Option (Value Float)) (b : Buffer) (v : Value Float) (s : S)
      → parse b.payload ≡ some v
      → is_plain is_text v ≡ true
      → message_callback (some (on_message (convert_json parse) handle_json)) b s
        ≡ catch (handle (seen v)) (λ e. pure tt) s
  unfolding message_callback on_message convert_json handle_json
  python_sees parse b v s reads plain = rw reads (rw (cast_lem is_text v plain) refl)
