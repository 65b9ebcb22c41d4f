-- ===== src/Python/Json/Caster.antt =====
-- python/bindings/bind_data_channel.cpp: what the `type_caster` does with a message that is no object,
-- and with an integer of more than 63 bits.
use mosaic_core.Base.{String, Bool, true, false, ◌≡◌, refl, arith, ℕ}
use mosaic_core.Base.Int.{pos}
use mosaic_core.Exec.{ok, throws}
use mosaic_core.Exec.Fallible.{◌>>=◌}
use mosaic_core.Python.Json.{
  Value, null_value, boolean_value, int_value, real_value, string_value, uint_value, array_value,
  object_value, Items, no_items, item, no_members, member, dict_object, Object, Entries, no_entries,
  entry, str_key, set_entry, is_int64, int64_of, text_across, pyobj_to_json, json_to_pyobj,
  items_to_dict, cast, load,
}
use mosaic_core.Python.Json.RoundTrip.{is_plain, are_plain, both, py, to_python}

module _ {Float : Type 0} where
  abbrev last_of : Object Float → Items Float → Entries Float
  last_of p no_items = entry (str_key "") p no_entries
  last_of p (item v rest) = last_of (py v) rest

  -- What Python sees of a message: the members of an object, the last element of an array under the
  -- name "", and nothing of any other value.
  abbrev pub seen : Value Float → Object Float
  seen (object_value ms) = py (object_value ms)
  seen (array_value no_items) = dict_object no_entries
  seen (array_value (item v rest)) = dict_object (last_of (py v) rest)
  seen _ = dict_object no_entries

module _ {Float : Type 0} (is_text : String → Bool) where
  last_wins :
      (p : Object Float) (vs : Items Float)
      → are_plain is_text vs ≡ true
      → items_to_dict is_text vs (entry (str_key "") p no_entries) ≡ ok (last_of p vs)
  unfolding items_to_dict is_plain set_entry
  last_wins p no_items h = refl
  last_wins p (item v rest) h =
      let (first, others) = both (is_plain is_text v) (are_plain is_text rest) h in
      rw (to_python is_text v first) (last_wins (py v) rest others)

  pub cast_lem : (v : Value Float) → is_plain is_text v ≡ true → cast is_text v ≡ ok (seen v)
  unfolding cast items_to_dict is_plain set_entry json_to_pyobj
  cast_lem (object_value ms) h = to_python is_text (object_value ms) h
  cast_lem (array_value no_items) h = refl
  cast_lem (array_value (item v rest)) h =
      let (first, others) = both (is_plain is_text v) (are_plain is_text rest) h in
      rw (to_python is_text v first) (rw (last_wins (py v) rest others) refl)
  cast_lem null_value h = refl
  cast_lem (boolean_value b) h = refl
  cast_lem (int_value z) h = refl
  cast_lem (uint_value n) h = refl
  cast_lem (real_value x) h = refl
  cast_lem (string_value t) h = refl

  -- An unsigned integer from 2^63 on, which Python gets in a message, cannot be sent back in one: the
  -- argument is refused with an exception.
  pub large_unsigned :
      (name : String) (n : ℕ)
      → is_text name ≡ true
      → is_int64 (pos n) ≡ false
      → (cast {Float = Float} is_text (object_value (member name (uint_value n) no_members))
          >>= load is_text)
        ≡ throws "cast_error"
  unfolding cast load json_to_pyobj pyobj_to_json int64_of text_across set_entry
  large_unsigned name n t large = ground arith
