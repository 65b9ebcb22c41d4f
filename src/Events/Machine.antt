-- ===== src/Events/Machine.antt =====
-- The state machine of the connector, as src/core/peer_connection_manager.cpp and
-- peer_connection_observer.cpp walk through it.
pub mod Paths
pub mod Simulation
use mosaic_core.Base.{
  String, ap, sym, subst, ◌≡◌, ◌≢◌, refl, ◌∙◌, Bool, true, false, List, [], ◌∷◌, Bool-cases, inl,
  inr, ◌⊎◌, ◌||◌, arith, if◌then◌else◌,
}
use mosaic_core.Exec.{
  Outcome, ok, throws, fault, Exec, catch, when, gets, pure, modify, deref, continue, handle, ◌>>=◌,
  ◌>>◌,
}
use mosaic_core.Exec.Keeps.{Keeps, keeps_rules, Keeps-when}
use mosaic_core.Env.{Env, Call, set_remote_description}
use mosaic_core.System.{
  System, Action, put_peer, PeerConnectionManager, State, initializing, ready_to_connect,
  rtc_connecting, rtc_connected, rtc_disconnecting, rtc_failed, disconnected,
}
use mosaic_core.StateManager.{state_of, set_state, is_state, same_state}
use mosaic_core.PeerConnection.{
  release_connection, close_peer_connection, accept_offer, open_peer_connection,
  on_connection_connected, on_connection_disconnected,
}
use mosaic_core.PeerConnection
use mosaic_core.Connector.{connected, on_connection_change}
use mosaic_core.Events.{Event, connection_changed, step, run}
use mosaic_core.Events.Keeps.{Kept-step}
use mosaic_core.PeerConnection.Loop.{Keeps-for_each}
use mosaic_core.PeerConnection.Tracks.{
  with_track, with_channel, log_call, close_all_media_tracks, close_all_data_channels,
}
use mosaic_core.StateManager.Report.{set_state-SetTo}

-- One move: a state that is set and reported, or a peer connection that is taken or dropped in it.
-- The Boolean says whether there is a peer connection.
pub data Move (n : State) (has : Bool) : State → Bool → Type 0 where
  accepts : n ≡ ready_to_connect → Move n has rtc_connecting has
  opens : n ≡ rtc_connecting → Move n has n true
  fails : n ≡ rtc_connecting → has ≡ false → Move n has rtc_failed has
  hangs_up : n ≡ rtc_connecting → Move n has rtc_disconnecting has
  disconnects : n ≡ rtc_connected → Move n has rtc_disconnecting has
  releases : n ≡ rtc_disconnecting → Move n has n false
  finishes : n ≡ rtc_disconnecting → Move n has ready_to_connect has

pub data Moves (n : State) (has : Bool) : State → Bool → Type 0 where
  here : Moves n has n has
  next : {m m' : State} {b b' : Bool} → Moves n has m b → Move m b m' b' → Moves n has m' b'

abbrev pub reports_connection : {env : Env} → Event env → Bool
reports_connection (connection_changed connected) = true
reports_connection _ = false

-- What one event does: a report that WebRTC has connected sets RTC_CONNECTED from any state, and all
-- else walks along moves.
abbrev pub Walk : {env : Env} → Event env → State → Bool → State → Bool → Type 0
Walk e n has m b = if reports_connection e then (m ≡ rtc_connected) × (b ≡ has) else Moves n has m b

-- One walk for each event.
pub data Walks {env : Env} : List (Event env) → State → Bool → State → Bool → Type 0 where
  stay : {n : State} {has : Bool} → Walks [] n has n has
  go :
      {e : Event env} {es : List (Event env)} {n m k : State} {has b c : Bool}
      → Walk e n has m b
      → Walks es m b k c
      → Walks (e ∷ es) n has k c
