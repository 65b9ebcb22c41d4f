-- ===== src/Python/Json/RoundTrip.antt =====
-- python/bindings/bind_data_channel.cpp: what a message looks like after it went to Python and back.
use mosaic_core.Base.{String, Bool, true, false, false≢true, ◌≡◌, refl, ◌∙◌, ap, ◌&&◌, arith}
use mosaic_core.Base.Int.{ℤ, pos}
use mosaic_core.Exec.{ok}
use mosaic_core.Exec.Fallible.{◌>>=◌}
use mosaic_core.Python.Json.{
  Value, null_value, boolean_value, int_value, uint_value, real_value, string_value, array_value,
  object_value, Items, no_items, item, Members, no_members, member, Object, none_object,
  bool_object, int_object, float_object, str_object, list_object, dict_object, Elements,
  no_elements, element, Entries, no_entries, entry, str_key, append_item, append_element,
  set_member, set_entry, is_int64, int64_of, text_across, key_text, pyobj_to_json,
  elements_to_array, entries_to_object, json_to_pyobj, items_to_list, members_to_dict,
}
use mosaic_core.Python.Json.Filling.{
  ahead_of, lacks, all_ahead, join_elements, join_items, join_entries, join_members,
  join-append_element, join-append_item, all_lacking, all_before, join_elements_end, join_items_end,
  join_entries_end, join_members_end, lacking_nothing, before_nothing, join-set_entry,
  join-set_member, all_lacking-set_entry, all_before-set_member,
}

module _ {Float : Type 0} (is_text : String → Bool) where
  unfoldable mutual
    unfolding ahead_of

    -- A value whose texts can pass, whose integers are signed 64-bit ones, and whose objects have
    -- their members in the order of their names, each name once.
    pub is_plain : Value Float → Bool
    is_plain (int_value z) = is_int64 z
    is_plain (uint_value n) = is_int64 (pos n)
    is_plain (string_value s) = is_text s
    is_plain (array_value vs) = are_plain vs
    is_plain (object_value ms) = members_are_plain ms
    is_plain _ = true

    pub are_plain : Items Float → Bool
    are_plain no_items = true
    are_plain (item v rest) = is_plain v && are_plain rest

    pub members_are_plain : Members Float → Bool
    members_are_plain no_members = true
    members_are_plain (member name v rest) =
        (is_text name && is_plain v) && (ahead_of name rest && members_are_plain rest)

unfoldable mutual
  -- The value with its unsigned integers as signed ones.
  pub signed : {Float : Type 0} → Value Float → Value Float
  signed (uint_value n) = int_value (pos n)
  signed (array_value vs) = array_value (signed_items vs)
  signed (object_value ms) = object_value (signed_members ms)
  signed v = v

  pub signed_items : {Float : Type 0} → Items Float → Items Float
  signed_items no_items = no_items
  signed_items (item v rest) = item (signed v) (signed_items rest)

  pub signed_members : {Float : Type 0} → Members Float → Members Float
  signed_members no_members = no_members
  signed_members (member name v rest) = member name (signed v) (signed_members rest)

unfoldable mutual
  -- The value in Python, each text being the same there.
  pub py : {Float : Type 0} → Value Float → Object Float
  py null_value = none_object
  py (boolean_value b) = bool_object b
  py (int_value z) = int_object z
  py (uint_value n) = int_object (pos n)
  py (real_value x) = float_object x
  py (string_value s) = str_object s
  py (array_value vs) = list_object (py_items vs)
  py (object_value ms) = dict_object (py_members ms)

  py_items : {Float : Type 0} → Items Float → Elements Float
  py_items no_items = no_elements
  py_items (item v rest) = element (py v) (py_items rest)

  py_members : {Float : Type 0} → Members Float → Entries Float
  py_members no_members = no_entries
  py_members (member name v rest) = entry (str_key name) (py v) (py_members rest)

pub both : (a b : Bool) → (a && b) ≡ true → (a ≡ true) × (b ≡ true)
both true b h = (refl, h)
both false b h = absurd (false≢true h)

ok-int64_of : (z : ℤ) → is_int64 z ≡ true → int64_of z ≡ ok z
unfolding int64_of
ok-int64_of z h = ground arith

ok-text_across :
    (is_text : String → Bool) (s : String) → is_text s ≡ true → text_across is_text s ≡ ok s
unfolding text_across
ok-text_across is_text s h = ground arith

module _ {Float : Type 0} (is_text : String → Bool) where
  mutual
    unfolding json_to_pyobj is_plain py join_elements join_entries all_lacking

    pub to_python :
        (v : Value Float) → is_plain is_text v ≡ true → json_to_pyobj is_text v ≡ ok (py v)
    to_python null_value h = refl
    to_python (boolean_value b) h = refl
    to_python (int_value z) h = refl
    to_python (uint_value n) h = refl
    to_python (real_value x) h = refl
    to_python (string_value s) h = ground (arith, ok-text_across is_text s h)
    to_python (array_value vs) h = ground (arith, items_to_python vs no_elements h)
    to_python (object_value ms) h =
        ground (arith, members_to_python ms no_entries h (lacking_nothing ms))

    items_to_python :
        (vs : Items Float) (arr : Elements Float)
        → are_plain is_text vs ≡ true
        → items_to_list is_text vs arr ≡ ok (join_elements arr (py_items vs))
    items_to_python no_items arr h = ground (arith, join_elements_end arr)
    items_to_python (item v rest) arr h =
        let (first, others) = both (is_plain is_text v) (are_plain is_text rest) h in
        rw (to_python v first) (
          items_to_python rest (append_element arr (py v)) others
          ∙ ap ok (join-append_element arr (py v) (py_items rest)))

    members_to_python :
        (ms : Members Float) (obj : Entries Float)
        → members_are_plain is_text ms ≡ true
        → all_lacking obj ms ≡ true
        → members_to_dict is_text ms obj ≡ ok (join_entries obj (py_members ms))
    members_to_python no_members obj h l = ground (arith, join_entries_end obj)
    members_to_python (member name v rest) obj h l =
        let (here, there) =
          both (is_text name && is_plain is_text v)
            (ahead_of name rest && members_are_plain is_text rest) h in
        let (text, plain) = both (is_text name) (is_plain is_text v) here in
        let (order, others) = both (ahead_of name rest) (members_are_plain is_text rest) there in
        let (free, free_rest) = both (lacks name obj) (all_lacking obj rest) l in
        rw (to_python v plain) (
          rw (ok-text_across is_text name text) (
            members_to_python rest (set_entry (str_key name) (py v) obj) others
              (all_lacking-set_entry name (py v) obj rest free_rest order)
            ∙ ap ok (join-set_entry name (py v) obj (py_members rest) free)))

  mutual
    unfolding pyobj_to_json is_plain py signed join_items join_members all_before key_text

    pub from_python :
        (v : Value Float) → is_plain is_text v ≡ true → pyobj_to_json is_text (py v) ≡ ok (signed v)
    from_python null_value h = refl
    from_python (boolean_value b) h = refl
    from_python (int_value z) h = ground (arith, ok-int64_of z h)
    from_python (uint_value n) h = ground (arith, ok-int64_of (pos n) h)
    from_python (real_value x) h = refl
    from_python (string_value s) h = ground (arith, ok-text_across is_text s h)
    from_python (array_value vs) h = ground (arith, items_from_python vs no_items h)
    from_python (object_value ms) h =
        ground (arith, members_from_python ms no_members h (before_nothing ms))

    items_from_python :
        (vs : Items Float) (arr : Items Float)
        → are_plain is_text vs ≡ true
        → elements_to_array is_text (py_items vs) arr ≡ ok (join_items arr (signed_items vs))
    items_from_python no_items arr h = ground (arith, join_items_end arr)
    items_from_python (item v rest) arr h =
        let (first, others) = both (is_plain is_text v) (are_plain is_text rest) h in
        rw (from_python v first) (
          items_from_python rest (append_item arr (signed v)) others
          ∙ ap ok (join-append_item arr (signed v) (signed_items rest)))

    members_from_python :
        (ms obj : Members Float)
        → members_are_plain is_text ms ≡ true
        → all_before obj ms ≡ true
        → entries_to_object is_text (py_members ms) obj ≡ ok (join_members obj (signed_members ms))
    members_from_python no_members obj h b = ground (arith, join_members_end obj)
    members_from_python (member name v rest) obj h b =
        let (here, there) =
          both (is_text name && is_plain is_text v)
            (ahead_of name rest && members_are_plain is_text rest) h in
        let (text, plain) = both (is_text name) (is_plain is_text v) here in
        let (order, others) = both (ahead_of name rest) (members_are_plain is_text rest) there in
        let (free, free_rest) = both (all_ahead obj name) (all_before obj rest) b in
        rw (from_python v plain) (
          rw (ok-text_across is_text name text) (
            members_from_python rest (set_member name (signed v) obj) others
              (all_before-set_member name (signed v) obj rest free_rest order)
            ∙ ap ok (join-set_member name (signed v) obj (signed_members rest) free)))

  -- A value whose texts can pass, whose integers fit in 64 bits with their sign, and whose
  -- objects have their members in the order of their names, comes back from Python as it was, its
  -- unsigned integers as signed ones.
  pub round_trip :
      (v : Value Float)
      → is_plain is_text v ≡ true
      → (json_to_pyobj is_text v >>= pyobj_to_json is_text) ≡ ok (signed v)
  round_trip v h = rw (to_python v h) (from_python v h)
