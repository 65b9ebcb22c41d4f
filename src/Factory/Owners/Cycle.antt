-- ===== src/Factory/Owners/Cycle.antt =====
-- The cycles among the objects of src/core/mosaic_connector_factory.cpp.
use mosaic_core.Base.{
  ◌≡◌, refl, Bool, true, false, arith, Bool-cases, inl, inr, false≢true, sym, ◌∙◌,
}
use mosaic_core.Factory.Owners.{
  Component, program, signaling_client, authenticator, state_manager, connector, manager, observer,
  Pointers, is_held, destroyed, Step, copies, releases, opens, shuts_down, dies, Reach, created,
  next,
}

-- The connector and its manager hold each other, as the signaling client and its authenticator do.
record Tied (s : Pointers) : Type 0 where
  manager_of : s connector manager ≡ true
  connector_of : s manager connector ≡ true
  states_of : s connector state_manager ≡ true
  authenticator_of : s signaling_client authenticator ≡ true
  client_of : s authenticator signaling_client ≡ true

-- The objects that run threads, hold the socket or have handlers.
abbrev pub is_core : Component → Bool
is_core program = false
is_core observer = false
is_core _ = true

is_held_lem : (o : Component) (s : Pointers) → Tied s → is_core o ≡ true → is_held o s ≡ true
is_held_lem program s t c = ground arith
is_held_lem signaling_client s t c = ground arith
is_held_lem authenticator s t c = ground arith
is_held_lem state_manager s t c = ground arith
is_held_lem connector s t c = ground arith
is_held_lem manager s t c = ground arith
is_held_lem observer s t c = ground arith

dies-Tied : (o : Component) (s : Pointers) → is_core o ≡ false → Tied s → Tied (destroyed o s)
dies-Tied program s e t = ground arith
dies-Tied observer s e t = ground arith
dies-Tied signaling_client s e t = ground arith
dies-Tied authenticator s e t = ground arith
dies-Tied state_manager s e t = ground arith
dies-Tied connector s e t = ground arith
dies-Tied manager s e t = ground arith

step-Tied : {s t : Pointers} → Step s t → Tied s → Tied t
step-Tied copies i = ground arith
step-Tied releases i = ground arith
step-Tied opens i = ground arith
step-Tied shuts_down i = ground arith
step-Tied {s} (dies o p h) i = elim (Bool-cases (is_core o)) [
  | inl c ↦ absurd (false≢true (sym h ∙ is_held_lem o s i c))
  | inr c ↦ dies-Tied o s c i
]

Reach-Tied : {s : Pointers} → Reach s → Tied s
Reach-Tied created = record {
  manager_of = refl;
  connector_of = refl;
  states_of = refl;
  authenticator_of = refl;
  client_of = refl;
}
Reach-Tied (next r e) = step-Tied e (Reach-Tied r)

-- Once `Create` has made a connector, its signaling client, authenticator, state manager and peer
-- connection manager and the connector itself are held for good, whatever the program copies and
-- releases, offers come, and `ShuttingDown` is called: no destructor of these ever runs.
pub never_destroyed :
    (s : Pointers) (o : Component) → Reach s → is_core o ≡ true → is_held o s ≡ true
never_destroyed s o r c = is_held_lem o s (Reach-Tied r) c
