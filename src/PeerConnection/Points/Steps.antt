-- ===== src/PeerConnection/Points/Steps.antt =====
-- Steps of two threads, and the one of `ClosePeerConnection` that closes the handlers (src/core/peer_connection_manager.cpp).
use mosaic_core.Base.{◌≡◌, refl, arith}
use mosaic_core.Exec.{Exec, ok, ◌>>=◌}
use mosaic_core.Env.{Env}
use mosaic_core.System.{System}
use mosaic_core.PeerConnection.Tracks.{close_all_media_tracks}
use mosaic_core.PeerConnection.Release.{
  Closing, close_all_media_tracks_lem, close_all_data_channels_lem,
}
use mosaic_core.PeerConnection.Points.{tests_pointer, closes_handlers, advance}

pub bind_ok :
    {S A B : Type 0} (m : Exec S A) (f : A → Exec S B) (s : S) (a : A)
    → (m s).0 ≡ ok a
    → (m >>= f) s ≡ f a (m s).1
unfolding ◌>>=◌
bind_ok m f s a h = rw h refl

module _ (env : Env) (c : Closing env) where
  -- The handlers close, and nothing else changes.
  pub handlers_closed :
      (s : System env)
      → let s' = (advance env closes_handlers s).1 in
        ((advance env closes_handlers s).0 ≡ ok tests_pointer)
        × (s'.ws ≡ s.ws)
        × (s'.owner.signaling ≡ s.owner.signaling)
        × (s'.owner.states ≡ s.owner.states)
        × (s'.owner.peer ≡ s.owner.peer)
  unfolding advance
  handlers_closed s =
      let s₁ = (close_all_media_tracks env s).1 in
      let t = close_all_media_tracks_lem env c s in
      let h = close_all_data_channels_lem env c s₁ in
      ground (
        arith, t.0, h.0, t.1.ws, h.1.ws, t.1.signaling, h.1.signaling, t.1.states, h.1.states,
        t.1.peer, h.1.peer,
      )
