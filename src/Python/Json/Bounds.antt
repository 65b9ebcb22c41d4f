-- ===== src/Python/Json/Bounds.antt =====
-- python/bindings/bind_data_channel.cpp: the integers that Python hands over.
use mosaic_core.Base.{String, Bool, true, ◌≡◌, ◌==◌, Bool-cases, inl, inr}
use mosaic_core.Exec.{ok}
use mosaic_core.Exec.Fallible.{Holds, Holds-ok, Holds-any, Holds-bind}
use mosaic_core.Python.Json.{
  Value, int_value, uint_value, array_value, object_value, Items, no_items, item, Members,
  no_members, member, Object, none_object, bool_object, int_object, float_object, str_object,
  list_object, dict_object, other_object, Elements, no_elements, element, Entries, no_entries,
  entry, precedes, append_item, set_member, is_int64, int64_of, text_across, key_text,
  pyobj_to_json, elements_to_array, entries_to_object,
}

-- Every number of the value is a signed one of 64 bits or a `double`.
unfoldable mutual
  pub InRange : {Float : Type 0} → Value Float → Type 0
  InRange (int_value z) = is_int64 z ≡ true
  InRange (uint_value n) = ⊥
  InRange (array_value vs) = InRangeItems vs
  InRange (object_value ms) = InRangeMembers ms
  InRange _ = Unit

  pub InRangeItems : {Float : Type 0} → Items Float → Type 0
  InRangeItems no_items = Unit
  InRangeItems (item v rest) = InRange v × InRangeItems rest

  pub InRangeMembers : {Float : Type 0} → Members Float → Type 0
  InRangeMembers no_members = Unit
  InRangeMembers (member name v rest) = InRange v × InRangeMembers rest

module _ {Float : Type 0} where
  InRange-append_item :
      (arr : Items Float) (v : Value Float)
      → InRangeItems arr
      → InRange v
      → InRangeItems (append_item arr v)
  unfolding InRange append_item
  InRange-append_item no_items v h k = (k, tt)
  InRange-append_item (item w rest) v h k = (h.0, InRange-append_item rest v h.1 k)

  InRange-set_member :
      (name : String) (v : Value Float) (obj : Members Float)
      → InRangeMembers obj
      → InRange v
      → InRangeMembers (set_member name v obj)
  unfolding InRange set_member
  InRange-set_member name v no_members h k = (k, tt)
  InRange-set_member name v (member first w rest) h k = elim (Bool-cases (first == name)) [
    | inl e ↦ rw e (k, h.1)
    | inr e ↦ elim (Bool-cases (precedes name first)) [
      | inl f ↦ rw e (rw f (k, h))
      | inr f ↦ rw e (rw f (h.0, InRange-set_member name v rest h.1 k))
    ]
  ]

module _ {Float : Type 0} (is_text : String → Bool) where
  mutual
    unfolding InRange pyobj_to_json int64_of

    in_range : (p : Object Float) → Holds InRange (pyobj_to_json is_text p)
    in_range none_object = tt
    in_range (bool_object b) = tt
    in_range (int_object z) = elim (Bool-cases (is_int64 z)) [ inl e ↦ rw e e | inr e ↦ rw e tt ]
    in_range (float_object x) = tt
    in_range (str_object s) =
        Holds-bind (λ t. Unit) InRange (text_across is_text s) _ (Holds-any _) (λ t h. tt)
    in_range (list_object ps) =
        Holds-bind InRangeItems InRange (elements_to_array is_text ps no_items) _
          (elements_in_range ps no_items tt) (λ vs h. h)
    in_range (dict_object ds) =
        Holds-bind InRangeMembers InRange (entries_to_object is_text ds no_members) _
          (entries_in_range ds no_members tt) (λ ms h. h)
    in_range other_object = tt

    elements_in_range :
        (ps : Elements Float) (arr : Items Float)
        → InRangeItems arr
        → Holds InRangeItems (elements_to_array is_text ps arr)
    elements_in_range no_elements arr h = h
    elements_in_range (element p rest) arr h =
        Holds-bind InRange InRangeItems (pyobj_to_json is_text p) _ (in_range p)
          (λ v k. elements_in_range rest (append_item arr v) (InRange-append_item arr v h k))

    entries_in_range :
        (ds : Entries Float) (obj : Members Float)
        → InRangeMembers obj
        → Holds InRangeMembers (entries_to_object is_text ds obj)
    entries_in_range no_entries obj h = h
    entries_in_range (entry key p rest) obj h =
        Holds-bind InRange InRangeMembers (pyobj_to_json is_text p) _ (in_range p) (λ v k.
          Holds-bind (λ t. Unit) InRangeMembers (key_text is_text key) _ (Holds-any _)
            (λ name u.
              entries_in_range rest (set_member name v obj) (InRange-set_member name v obj h k)))

  -- A Python integer outside the signed 64-bit ones never gets into a value, however deep in lists
  -- and dictionaries it stands: of an object that is converted at all, every integer of the
  -- value is a signed 64-bit one.
  pub pyobj_to_json-InRange :
      (p : Object Float) (v : Value Float) → pyobj_to_json is_text p ≡ ok v → InRange v
  pyobj_to_json-InRange p v e = Holds-ok InRange (pyobj_to_json is_text p) v e (in_range p)
