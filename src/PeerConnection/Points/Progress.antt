-- ===== src/PeerConnection/Points/Progress.antt =====
-- A thread in `ClosePeerConnection` (src/core/peer_connection_manager.cpp) that has set
-- RTC_DISCONNECTING, step by step, beside one that has come later.
use mosaic_core.Base.{
  ◌≡◌, refl, true, false, List, ◌∷◌, arith, Bool, if◌then◌else◌, Bool-cases, inl, inr, false≢true,
  ℕ, ◌-◌, ◌≤◌,
}
use mosaic_core.Exec.{ok}
use mosaic_core.Env.{Env, close, Call}
use mosaic_core.System.{
  System, State, ready_to_connect, rtc_connecting, rtc_connected, rtc_disconnecting,
}
use mosaic_core.StateManager.{state_of, is_state}
use mosaic_core.StateManager.Report.{
  Reliable, Linked, set_state-SetTo, set_state-Linked, set_state_ok,
}
use mosaic_core.PeerConnection.Release.{Closing}
use mosaic_core.PeerConnection.Points.Steps.{handlers_closed}
use mosaic_core.PeerConnection.Points.{
  Point, tests_connected, tests_connecting, disconnects, closes_handlers, tests_pointer,
  calls_close, drops_pointer, reports_ready, reports_connected, done, advance,
}

-- The second thread has not come past its tests.
abbrev pub is_testing : Point → Bool
is_testing tests_connected = true
is_testing tests_connecting = true
is_testing done = true
is_testing _ = false

module _ (env : Env) where
  abbrev pub Calls : Type 0
  Calls = List (Call env.rtc.Sdp env.rtc.Candidate)

  -- `had` and `calls` are the pointer and the calls when the first thread came to the handlers.
  abbrev pub Progress : Bool → Calls → Point → Bool → Calls → State → Type 0
  Progress had calls closes_handlers has now st =
      (has ≡ had) × (now ≡ calls) × (st ≡ rtc_disconnecting)
  Progress had calls tests_pointer has now st =
      (has ≡ had) × (now ≡ calls) × (st ≡ rtc_disconnecting)
  Progress had calls calls_close has now st =
      (has ≡ true) × (had ≡ true) × (now ≡ calls) × (st ≡ rtc_disconnecting)
  Progress had calls drops_pointer has now st =
      (had ≡ true) × (now ≡ close ∷ calls) × (st ≡ rtc_disconnecting)
  Progress had calls reports_ready has now st =
      (has ≡ false) × (now ≡ (if had then close ∷ calls else calls)) × (st ≡ rtc_disconnecting)
  Progress had calls done has now st =
      (has ≡ false) × (now ≡ (if had then close ∷ calls else calls)) × (st ≡ ready_to_connect)
  Progress had calls _ has now st = ⊥

  pub record Late (had : Bool) (calls : Calls) (p q : Point) (s : System env) : Type 0 where
    pub first :
        Progress had calls p s.owner.peer.has_peer_connection s.owner.peer.calls (state_of env s)
    pub second : is_testing q ≡ true
    pub linked : Linked s

  -- The turns a thread that has set RTC_DISCONNECTING has left.
  abbrev pub left : Point → ℕ
  left closes_handlers = 5
  left tests_pointer = 4
  left calls_close = 3
  left drops_pointer = 2
  left reports_ready = 1
  left _ = 0

  pub ended :
      (had : Bool) (calls : Calls) (p : Point) (has : Bool) (now : Calls) (st : State)
      → left p ≤ 0
      → Progress had calls p has now st
      → (p ≡ done)
        × (st ≡ ready_to_connect)
        × (has ≡ false)
        × (now ≡ (if had then close ∷ calls else calls))
  ended had calls done has now st e h = (refl, h.2, h.0, h.1)
  ended had calls closes_handlers has now st e h = absurd (ground arith)
  ended had calls tests_pointer has now st e h = absurd (ground arith)
  ended had calls calls_close has now st e h = absurd (ground arith)
  ended had calls drops_pointer has now st e h = absurd (ground arith)
  ended had calls reports_ready has now st e h = absurd (ground arith)
  ended had calls tests_connected has now st e h = absurd h
  ended had calls tests_connecting has now st e h = absurd h
  ended had calls disconnects has now st e h = absurd h
  ended had calls reports_connected has now st e h = absurd h

  module _ (c : Closing env) (r : Reliable env.net) where
    pub first-Late :
        (had : Bool) (calls : Calls) (p q : Point) (s : System env)
        → Late had calls p q s
        → (p' : Point) × ((advance env p s).0 ≡ ok p')
          × Late had calls p' q (advance env p s).1
          × (left p' ≤ left p - 1)
    unfolding advance
    first-Late had calls closes_handlers q s l =
        let h = handlers_closed env c s in
        (
          tests_pointer,
          h.0,
          record {
            first = ground (arith, l.first);
            second = l.second;
            linked = ground (arith, l.linked);
          },
          omega arith,
        )
    first-Late had calls tests_pointer q s l = elim (Bool-cases s.owner.peer.has_peer_connection) [
      | inl e ↦ (
        calls_close,
        ground arith,
        record {
          first = ground (arith, l.first);
          second = l.second;
          linked = ground (arith, l.linked);
        },
        omega arith,
      )
      | inr e ↦ (
        reports_ready,
        ground arith,
        record {
          first = ground (arith, l.first);
          second = l.second;
          linked = ground (arith, l.linked);
        },
        omega arith,
      )
    ]
    first-Late had calls calls_close q s l = (
      drops_pointer,
      ground (arith, l.first),
      record {
        first = ground (arith, l.first);
        second = l.second;
        linked = ground (arith, l.first, l.linked);
      },
      omega arith,
    )
    first-Late had calls drops_pointer q s l = (
      reports_ready,
      refl,
      record {
        first = ground (arith, l.first);
        second = l.second;
        linked = ground (arith, l.linked);
      },
      omega arith,
    )
    first-Late had calls reports_ready q s l =
        let e = set_state-SetTo env ready_to_connect s in
        (
          done,
          ground (arith, set_state_ok env ready_to_connect s r l.linked),
          record {
            first = ground (arith, l.first);
            second = l.second;
            linked = ground (
              arith,
              set_state_ok env ready_to_connect s r l.linked,
              set_state-Linked env ready_to_connect s l.linked,
            );
          },
          omega arith,
        )
    first-Late had calls done q s l = (done, refl, l, omega arith)
    first-Late had calls tests_connected q s l = absurd l.first
    first-Late had calls tests_connecting q s l = absurd l.first
    first-Late had calls disconnects q s l = absurd l.first
    first-Late had calls reports_connected q s l = absurd l.first

    pub inactive :
        (had : Bool) (calls : Calls) (p q : Point) (s : System env)
        → Late had calls p q s
        → (is_state env rtc_connected s ≡ false) × (is_state env rtc_connecting s ≡ false)
    inactive had calls closes_handlers q s l = ground (arith, l.first)
    inactive had calls tests_pointer q s l = ground (arith, l.first)
    inactive had calls calls_close q s l = ground (arith, l.first)
    inactive had calls drops_pointer q s l = ground (arith, l.first)
    inactive had calls reports_ready q s l = ground (arith, l.first)
    inactive had calls done q s l = ground (arith, l.first)
    inactive had calls tests_connected q s l = absurd l.first
    inactive had calls tests_connecting q s l = absurd l.first
    inactive had calls disconnects q s l = absurd l.first
    inactive had calls reports_connected q s l = absurd l.first

    pub second_step :
        (q : Point) (s : System env)
        → is_testing q ≡ true
        → (is_state env rtc_connected s ≡ false) × (is_state env rtc_connecting s ≡ false)
        → (q' : Point) × (advance env q s ≡ (ok q', s)) × (is_testing q' ≡ true)
    unfolding advance
    second_step tests_connected s t i = (tests_connecting, ground (arith, i.0), refl)
    second_step tests_connecting s t i = (done, ground (arith, i.1), refl)
    second_step done s t i = (done, refl, refl)
    second_step disconnects s t i = absurd (false≢true t)
    second_step closes_handlers s t i = absurd (false≢true t)
    second_step tests_pointer s t i = absurd (false≢true t)
    second_step calls_close s t i = absurd (false≢true t)
    second_step drops_pointer s t i = absurd (false≢true t)
    second_step reports_ready s t i = absurd (false≢true t)
    second_step reports_connected s t i = absurd (false≢true t)
