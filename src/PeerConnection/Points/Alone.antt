-- ===== src/PeerConnection/Points/Alone.antt =====
-- One thread in `ClosePeerConnection` (src/core/peer_connection_manager.cpp).
use mosaic_core.Base.{◌≡◌, arith}
use mosaic_core.Exec.{◌>>=◌, ◌>>◌, pure}
use mosaic_core.Env.{Env}
use mosaic_core.System.{System}
use mosaic_core.PeerConnection.{close_peer_connection, release_connection}
use mosaic_core.PeerConnection.Points.{tests_connected, done, alone, advance}

module _ (env : Env) where
  -- Eight steps are enough, and one thread alone does what `ClosePeerConnection` does: on every
  -- outcome, with handlers that throw and a network that refuses frames.
  pub alone_lem :
      (s : System env) → alone env 8 tests_connected s ≡ (do close_peer_connection env; pure done) s
  unfolding alone advance close_peer_connection release_connection ◌>>=◌
  alone_lem s = ground arith
