-- ===== src/PeerConnection/Points/Late.antt =====
-- A second call of `ClosePeerConnection` (src/core/peer_connection_manager.cpp) that comes when the
-- first has set RTC_DISCONNECTING.
use mosaic_core.Base.{
  ◌≡◌, refl, true, false, List, [], ◌∷◌, arith, Bool, if◌then◌else◌, subst, sym, ap, ◌∙◌, ℕ, suc,
  ◌-◌, ◌≤◌,
}
use mosaic_core.Exec.{Outcome, ok}
use mosaic_core.Env.{Env, close}
use mosaic_core.System.{System, ready_to_connect, rtc_disconnecting}
use mosaic_core.StateManager.{state_of}
use mosaic_core.StateManager.Report.{Reliable, Linked}
use mosaic_core.PeerConnection.Release.{Closing}
use mosaic_core.PeerConnection.Points.Steps.{bind_ok}
use mosaic_core.PeerConnection.Points.{
  Point, tests_connected, closes_handlers, done, advance, together,
}
use mosaic_core.PeerConnection.Points.Progress.{
  Calls, left, Late, ended, first-Late, inactive, second_step,
}

-- The turns of the first thread.
abbrev pub turns : List Bool → ℕ
turns [] = 0
turns (true ∷ ts) = suc (turns ts)
turns (false ∷ ts) = turns ts

module _ (env : Env) (c : Closing env) (r : Reliable env.net) where
  abbrev Ends : Bool → Calls env → ℕ → Outcome (Point × Point) × System env → Type 0
  Ends had calls n r =
      (x : Point × Point) × (r.0 ≡ ok x) × Late env had calls x.0 x.1 r.1 × (left env x.0 ≤ n)

  together-Late :
      (had : Bool) (calls : Calls env) (ts : List Bool) (p q : Point) (s : System env)
      → Late env had calls p q s
      → Ends had calls (left env p - turns ts) (together env ts p q s)
  unfolding together
  together-Late had calls [] p q s l = ((p, q), refl, l, omega arith)
  together-Late had calls (true ∷ ts) p q s l =
      let (p', o, l', k) = first-Late env c r had calls p q s l in
      let (x, e, l'', k') = together-Late had calls ts p' q (advance env p s).1 l' in
      subst (Ends had calls (left env p - turns (true ∷ ts)))
        (sym (bind_ok (advance env p) (λ p'. together env ts p' q) s p' o)) (x, e, l'', omega arith)
  together-Late had calls (false ∷ ts) p q s l =
      let (q', e, t) = second_step env c r q s l.second (inactive env c r had calls p q s l) in
      let stays = ap (λ (x : Outcome Point × System env). x.1) e in
      subst (Ends had calls (left env p - turns ts))
        (sym (
          bind_ok (advance env q) (λ q'. together env ts p q') s q'
            (ap (λ (x : Outcome Point × System env). x.0) e)))
        (together-Late had calls ts p q' (advance env q s).1 (
          subst (Late env had calls p q') (sym stays)
            (record { first = l.first; second = t; linked = l.linked })))

  -- A call of `ClosePeerConnection` that comes when another has just set RTC_DISCONNECTING does no
  -- harm, if the handlers close, the network takes every frame and a client that counts as connected
  -- exists: however the two threads are scheduled, once the first has had five more turns it has
  -- returned, no null pointer has been called, the state is READY_TO_CONNECT, the pointer is dropped,
  -- and `Close` has been called once if there was a connection, and else not.
  pub late_close :
      (ts : List Bool) (s : System env)
      → Linked s
      → state_of env s ≡ rtc_disconnecting
      → 5 ≤ turns ts
      → let r = together env ts closes_handlers tests_connected s in
        let calls = s.owner.peer.calls in
        (q : Point) × (r.0 ≡ ok (done, q))
        × (state_of env r.1 ≡ ready_to_connect)
        × (r.1.owner.peer.has_peer_connection ≡ false)
        × (r.1.owner.peer.calls
            ≡ (if s.owner.peer.has_peer_connection then close ∷ calls else calls))
  late_close ts s l e n =
      let had = s.owner.peer.has_peer_connection in
      let calls = s.owner.peer.calls in
      let ((p, q), o, k, m) =
        together-Late had calls ts closes_handlers tests_connected s
          (record { first = (refl, refl, e); second = refl; linked = l }) in
      let f = ended env had calls p _ _ _ (omega arith) k.first in
      (q, o ∙ ap (λ p'. ok (p', q)) f.0, f.1, f.2, f.3)
