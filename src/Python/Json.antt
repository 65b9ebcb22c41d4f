-- ===== src/Python/Json.antt =====
-- python/bindings/bind_data_channel.cpp: the two conversions between jsoncpp's values and Python's
-- objects, and the `type_caster` that the bindings use them through.
pub mod Bounds
pub mod Filling
pub mod RoundTrip
pub mod Caster
use Prim.Native.String.{compare}
use Prim.Native.Nat.{Ordering}
use Prim.Native.Nat.{compare as compare_ℕ}
use mosaic_core.Base.{ℕ, String, Bool, true, false, Option, none, some, ◌==◌, if◌then◌else◌, leb}
use mosaic_core.Base.Int.{ℤ, pos, negsuc}
use mosaic_core.Exec.{Outcome, ok, throws}
use mosaic_core.Exec.Fallible.{◌>>=◌}

-- What a `double` is does not matter here: both languages hold the same ones.
mutual
  -- `Json::Value`, by its `type()`; the members of an object stand in the order of their names.
  pub data Value (Float : Type 0) : Type 0 where
    null_value : Value Float
    boolean_value : Bool → Value Float
    int_value : ℤ → Value Float
    uint_value : ℕ → Value Float
    real_value : Float → Value Float
    string_value : String → Value Float
    array_value : Items Float → Value Float
    object_value : Members Float → Value Float

  pub data Items (Float : Type 0) : Type 0 where
    no_items : Items Float
    item : Value Float → Items Float → Items Float

  pub data Members (Float : Type 0) : Type 0 where
    no_members : Members Float
    member : String → Value Float → Members Float → Members Float

-- A key of a Python dictionary: a `str`, a `bytes`, or another object.
pub data Key : Type 0 where
  str_key bytes_key : String → Key
  other_key : ℕ → Key

mutual
  -- A Python object, by the tests of `pyobj_to_json`; a dictionary keeps the order in which its keys
  -- came.
  pub data Object (Float : Type 0) : Type 0 where
    none_object : Object Float
    bool_object : Bool → Object Float
    int_object : ℤ → Object Float
    float_object : Float → Object Float
    str_object : String → Object Float
    list_object : Elements Float → Object Float
    dict_object : Entries Float → Object Float
    other_object : Object Float

  pub data Elements (Float : Type 0) : Type 0 where
    no_elements : Elements Float
    element : Object Float → Elements Float → Elements Float

  pub data Entries (Float : Type 0) : Type 0 where
    no_entries : Entries Float
    entry : Key → Object Float → Entries Float → Entries Float

abbrev pub precedes : String → String → Bool
precedes a b = elim (compare a b) [ Ordering.lt ↦ true | _ ↦ false ]

abbrev eq_ℕ : ℕ → ℕ → Bool
eq_ℕ a b = elim (compare_ℕ a b) [ Ordering.eq ↦ true | _ ↦ false ]

abbrev pub same_key : Key → Key → Bool
same_key (str_key a) (str_key b) = a == b
same_key (bytes_key a) (bytes_key b) = a == b
same_key (other_key a) (other_key b) = eq_ℕ a b
same_key _ _ = false

module _ {Float : Type 0} where
  -- `arr.append(v)`, in both languages.
  unfoldable pub append_item : Items Float → Value Float → Items Float
  append_item no_items v = item v no_items
  append_item (item w rest) v = item w (append_item rest v)

  unfoldable pub append_element : Elements Float → Object Float → Elements Float
  append_element no_elements p = element p no_elements
  append_element (element q rest) p = element q (append_element rest p)

  -- `value[name] = v` on an object.
  unfoldable pub set_member : String → Value Float → Members Float → Members Float
  set_member name v no_members = member name v no_members
  set_member name v (member first w rest) =
      if first == name
      then member name v rest
      else if precedes name first
      then member name v (member first w rest)
      else member first w (set_member name v rest)

  -- `d[key] = p` on a dictionary; a key that is there stays in its place.
  unfoldable pub set_entry : Key → Object Float → Entries Float → Entries Float
  set_entry key p no_entries = entry key p no_entries
  set_entry key p (entry first q rest) =
      if same_key first key then entry first p rest else entry first q (set_entry key p rest)

-- The values of `Json::Int64`: from -2^63 to 2^63 - 1.
abbrev pub is_int64 : ℤ → Bool
is_int64 (pos n) = leb n 9223372036854775807
is_int64 (negsuc n) = leb n 9223372036854775807

-- `is_text` says that a text can pass between the languages: it is UTF-8 on the side of C++ and has
-- no lone surrogates on the side of Python.
module _ (is_text : String → Bool) where
  -- `cast(s)` of a `std::string`, and `cast<std::string>()` of a `str`.
  unfoldable pub text_across : String → Outcome String
  text_across s = if is_text s then ok s else throws "text"

  unfoldable pub key_text : Key → Outcome String
  unfolding text_across
  key_text (str_key s) = text_across s
  key_text (bytes_key s) = ok s
  key_text (other_key n) = throws "cast_error"

unfoldable pub int64_of : ℤ → Outcome ℤ
int64_of z = if is_int64 z then ok z else throws "cast_error"

module _ {Float : Type 0} (is_text : String → Bool) where
  unfoldable mutual
    unfolding text_across append_element set_entry

    pub json_to_pyobj : Value Float → Outcome (Object Float)
    json_to_pyobj null_value = ok none_object
    json_to_pyobj (boolean_value b) = ok (bool_object b)
    json_to_pyobj (int_value z) = ok (int_object z)
    json_to_pyobj (uint_value n) = ok (int_object (pos n))
    json_to_pyobj (real_value x) = ok (float_object x)
    json_to_pyobj (string_value s) = text_across is_text s >>= λ t. ok (str_object t)
    json_to_pyobj (array_value vs) = items_to_list vs no_elements >>= λ ps. ok (list_object ps)
    json_to_pyobj (object_value ms) = members_to_dict ms no_entries >>= λ ds. ok (dict_object ds)

    -- The loops, on what they have filled so far.
    pub items_to_list : Items Float → Elements Float → Outcome (Elements Float)
    items_to_list no_items arr = ok arr
    items_to_list (item v rest) arr =
        json_to_pyobj v >>= λ p. items_to_list rest (append_element arr p)

    pub members_to_dict : Members Float → Entries Float → Outcome (Entries Float)
    members_to_dict no_members obj = ok obj
    members_to_dict (member name v rest) obj = json_to_pyobj v >>= λ p.
        text_across is_text name >>= λ key. members_to_dict rest (set_entry (str_key key) p obj)

  unfoldable mutual
    unfolding text_across key_text int64_of append_item set_member

    pub pyobj_to_json : Object Float → Outcome (Value Float)
    pyobj_to_json none_object = ok null_value
    pyobj_to_json (bool_object b) = ok (boolean_value b)
    pyobj_to_json (int_object z) = int64_of z >>= λ w. ok (int_value w)
    pyobj_to_json (float_object x) = ok (real_value x)
    pyobj_to_json (str_object s) = text_across is_text s >>= λ t. ok (string_value t)
    pyobj_to_json (list_object ps) = elements_to_array ps no_items >>= λ vs. ok (array_value vs)
    pyobj_to_json (dict_object ds) = entries_to_object ds no_members >>= λ ms. ok (object_value ms)
    pyobj_to_json other_object = ok null_value

    pub elements_to_array : Elements Float → Items Float → Outcome (Items Float)
    elements_to_array no_elements arr = ok arr
    elements_to_array (element p rest) arr =
        pyobj_to_json p >>= λ v. elements_to_array rest (append_item arr v)

    pub entries_to_object : Entries Float → Members Float → Outcome (Members Float)
    entries_to_object no_entries obj = ok obj
    entries_to_object (entry key p rest) obj = pyobj_to_json p >>= λ v.
        key_text is_text key >>= λ name. entries_to_object rest (set_member name v obj)

  -- `type_caster<Json::Value>::load`: `none` refuses the argument.
  unfoldable pub load : Object Float → Outcome (Option (Value Float))
  unfolding entries_to_object
  load (dict_object ds) = entries_to_object ds no_members >>= λ ms. ok (some (object_value ms))
  load _ = ok none

  -- The loop of `type_caster<Json::Value>::cast` on an array, whose elements have the name "".
  unfoldable pub items_to_dict : Items Float → Entries Float → Outcome (Entries Float)
  unfolding json_to_pyobj set_entry
  items_to_dict no_items result = ok result
  items_to_dict (item v rest) result =
      json_to_pyobj v >>= λ p. items_to_dict rest (set_entry (str_key "") p result)

  -- `type_caster<Json::Value>::cast`: what is neither an array nor an object has no elements.
  unfoldable pub cast : Value Float → Outcome (Object Float)
  unfolding members_to_dict items_to_dict
  cast (object_value ms) = members_to_dict ms no_entries >>= λ ds. ok (dict_object ds)
  cast (array_value vs) = items_to_dict vs no_entries >>= λ ds. ok (dict_object ds)
  cast _ = ok (dict_object no_entries)
