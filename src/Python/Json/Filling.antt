-- ===== src/Python/Json/Filling.antt =====
-- python/bindings/bind_data_channel.cpp: the loops that fill a list, an array, a dictionary or
-- an object, on names that come in order.
use mosaic_core.Base.{String, Bool, true, ◌≡◌, refl, ap, ◌==◌, ◌&&◌, not, arith}
use mosaic_core.Python.Json.{
  Value, Items, no_items, item, Members, no_members, member, Object, Elements, no_elements, element,
  Entries, no_entries, entry, str_key, precedes, append_item, append_element, set_member, set_entry,
  same_key,
}

-- A name that may stand behind another one.
abbrev pub ahead : String → String → Bool
ahead a b = not (a == b) && not (precedes b a)

module _ {Float : Type 0} where
  unfoldable pub ahead_of : String → Members Float → Bool
  ahead_of name no_members = true
  ahead_of name (member n v rest) = ahead name n && ahead_of name rest

module _ {Float : Type 0} where
  unfoldable pub join_elements : Elements Float → Elements Float → Elements Float
  join_elements no_elements ps = ps
  join_elements (element p rest) ps = element p (join_elements rest ps)

  unfoldable pub join_items : Items Float → Items Float → Items Float
  join_items no_items vs = vs
  join_items (item v rest) vs = item v (join_items rest vs)

  unfoldable pub join_entries : Entries Float → Entries Float → Entries Float
  join_entries no_entries ds = ds
  join_entries (entry k p rest) ds = entry k p (join_entries rest ds)

  unfoldable pub join_members : Members Float → Members Float → Members Float
  join_members no_members ms = ms
  join_members (member n v rest) ms = member n v (join_members rest ms)

  pub join-append_element :
      (arr : Elements Float) (p : Object Float) (ps : Elements Float)
      → join_elements (append_element arr p) ps ≡ join_elements arr (element p ps)
  unfolding join_elements append_element
  join-append_element no_elements p ps = refl
  join-append_element (element q rest) p ps = ap (element q) (join-append_element rest p ps)

  pub join-append_item :
      (arr : Items Float) (v : Value Float) (vs : Items Float)
      → join_items (append_item arr v) vs ≡ join_items arr (item v vs)
  unfolding join_items append_item
  join-append_item no_items v vs = refl
  join-append_item (item w rest) v vs = ap (item w) (join-append_item rest v vs)

  pub join_elements_end : (ps : Elements Float) → join_elements ps no_elements ≡ ps
  unfolding join_elements
  join_elements_end no_elements = refl
  join_elements_end (element p rest) = ap (element p) (join_elements_end rest)

  pub join_items_end : (vs : Items Float) → join_items vs no_items ≡ vs
  unfolding join_items
  join_items_end no_items = refl
  join_items_end (item v rest) = ap (item v) (join_items_end rest)

  pub join_entries_end : (ds : Entries Float) → join_entries ds no_entries ≡ ds
  unfolding join_entries
  join_entries_end no_entries = refl
  join_entries_end (entry k p rest) = ap (entry k p) (join_entries_end rest)

  pub join_members_end : (ms : Members Float) → join_members ms no_members ≡ ms
  unfolding join_members
  join_members_end no_members = refl
  join_members_end (member n v rest) = ap (member n v) (join_members_end rest)

  -- No entry has this name.
  unfoldable pub lacks : String → Entries Float → Bool
  lacks name no_entries = true
  lacks name (entry k p rest) = not (same_key k (str_key name)) && lacks name rest

  unfoldable pub all_lacking : Entries Float → Members Float → Bool
  all_lacking obj no_members = true
  all_lacking obj (member name v rest) = lacks name obj && all_lacking obj rest

  -- Every member may stand before this name.
  unfoldable pub all_ahead : Members Float → String → Bool
  all_ahead no_members name = true
  all_ahead (member n v rest) name = ahead n name && all_ahead rest name

  unfoldable pub all_before : Members Float → Members Float → Bool
  all_before obj no_members = true
  all_before obj (member name v rest) = all_ahead obj name && all_before obj rest

  pub join-set_entry :
      (name : String) (p : Object Float) (obj ds : Entries Float)
      → lacks name obj ≡ true
      → join_entries (set_entry (str_key name) p obj) ds
        ≡ join_entries obj (entry (str_key name) p ds)
  unfolding join_entries set_entry lacks
  join-set_entry name p no_entries ds h = refl
  join-set_entry name p (entry k q rest) ds h = ground (arith, join-set_entry name p rest ds)

  pub join-set_member :
      (name : String) (v : Value Float) (obj ms : Members Float)
      → all_ahead obj name ≡ true
      → join_members (set_member name v obj) ms ≡ join_members obj (member name v ms)
  unfolding join_members set_member all_ahead
  join-set_member name v no_members ms h = refl
  join-set_member name v (member n w rest) ms h = ground (arith, join-set_member name v rest ms)

  lacks-set_entry :
      (name other : String) (p : Object Float) (obj : Entries Float)
      → lacks other obj ≡ true
      → ahead name other ≡ true
      → lacks other (set_entry (str_key name) p obj) ≡ true
  unfolding set_entry lacks
  lacks-set_entry name other p no_entries h a = ground arith
  lacks-set_entry name other p (entry k q rest) h a =
      ground (arith, lacks-set_entry name other p rest)

  pub all_lacking-set_entry :
      (name : String) (p : Object Float) (obj : Entries Float) (ms : Members Float)
      → all_lacking obj ms ≡ true
      → ahead_of name ms ≡ true
      → all_lacking (set_entry (str_key name) p obj) ms ≡ true
  unfolding all_lacking ahead_of
  all_lacking-set_entry name p obj no_members h a = refl
  all_lacking-set_entry name p obj (member n v rest) h a =
      ground (arith, lacks-set_entry name n p obj, all_lacking-set_entry name p obj rest)

  all_ahead-set_member :
      (name other : String) (v : Value Float) (obj : Members Float)
      → all_ahead obj other ≡ true
      → ahead name other ≡ true
      → all_ahead (set_member name v obj) other ≡ true
  unfolding set_member all_ahead
  all_ahead-set_member name other v no_members h a = ground arith
  all_ahead-set_member name other v (member n w rest) h a =
      ground (arith, all_ahead-set_member name other v rest)

  pub all_before-set_member :
      (name : String) (v : Value Float) (obj ms : Members Float)
      → all_before obj ms ≡ true
      → ahead_of name ms ≡ true
      → all_before (set_member name v obj) ms ≡ true
  unfolding all_before ahead_of
  all_before-set_member name v obj no_members h a = refl
  all_before-set_member name v obj (member n w rest) h a =
      ground (arith, all_ahead-set_member name n v obj, all_before-set_member name v obj rest)

  pub lacking_nothing : (ms : Members Float) → all_lacking no_entries ms ≡ true
  unfolding all_lacking lacks
  lacking_nothing no_members = refl
  lacking_nothing (member n v rest) = lacking_nothing rest

  pub before_nothing : (ms : Members Float) → all_before no_members ms ≡ true
  unfolding all_before all_ahead
  before_nothing no_members = refl
  before_nothing (member n v rest) = before_nothing rest
