-- ===== src/Factory/Owners.antt =====
-- Who holds whom by a `shared_ptr` among the objects that src/core/mosaic_connector_factory.cpp makes:
-- an object is destroyed when nothing holds it, and then holds nothing itself.
pub mod Cycle
use mosaic_core.Base.{◌≡◌, Bool, true, false, not, ◌&&◌, ◌||◌, if◌then◌else◌}

-- `program` is who called `Create`; one observer stands for those that come one after another.
pub data Component : Type 0 where
  program signaling_client authenticator state_manager connector manager observer : Component

abbrev pub same : Component → Component → Bool
same program program = true
same signaling_client signaling_client = true
same authenticator authenticator = true
same state_manager state_manager = true
same connector connector = true
same manager manager = true
same observer observer = true
same _ _ = false

-- `s a b`: a member of `a` points to `b`.
abbrev pub Pointers : Type 0
Pointers = Component → Component → Bool

abbrev pub point : Component → Component → Bool → Pointers → Pointers
point a b v s x y = if same a x && same b y then v else s x y

abbrev pub is_held : Component → Pointers → Bool
is_held o s =
    s program o
    || (s signaling_client o
        || (s authenticator o
            || (s state_manager o || (s connector o || (s manager o || s observer o)))))

-- The destructor of `o` releases what `o` holds.
abbrev pub destroyed : Component → Pointers → Pointers
destroyed o s x y = if same o x then false else s x y

abbrev nothing : Pointers
nothing x y = false

-- `Create`, with an authenticator: what its last line leaves when its local pointers are gone.
abbrev pub create_pointers : Pointers
create_pointers = point program connector true (
    point connector manager true (
      point manager signaling_client true (
        point manager state_manager true (
          point manager connector true (
            point signaling_client connector true (
              point connector state_manager true (
                point state_manager signaling_client true (
                  point signaling_client authenticator true
                    (point authenticator signaling_client true nothing)))))))))

-- `CreatePeerConnection` makes an observer in place of the one before.
abbrev pub observer_pointers : Pointers → Pointers
observer_pointers s =
    point manager observer true
      (point observer manager true (point observer connector true (destroyed observer s)))

-- `ShuttingDown`: the manager lets the signaling client and the observer go.
abbrev pub shutting_down_pointers : Pointers → Pointers
shutting_down_pointers s = point manager observer false (point manager signaling_client false s)

pub data Step (s : Pointers) : Pointers → Type 0 where
  copies : Step s (point program connector true s)
  releases : Step s (point program connector false s)
  opens : Step s (observer_pointers s)
  shuts_down : Step s (shutting_down_pointers s)
  dies : (o : Component) → same o program ≡ false → is_held o s ≡ false → Step s (destroyed o s)

pub data Reach : Pointers → Type 0 where
  created : Reach create_pointers
  next : {s t : Pointers} → Reach s → Step s t → Reach t
