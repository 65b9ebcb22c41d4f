-- ===== src/PeerConnection/Points.antt =====
-- `ClosePeerConnection` of src/core/peer_connection_manager.cpp cut into the steps between which
-- another thread may run: the thread of the WebSocket client calls it for the server, and the
-- signaling thread of WebRTC for the observer, and no lock spans it.
pub mod Alone
pub mod Steps
pub mod Progress
pub mod Late
pub mod Races
use mosaic_core.Base.{Bool, true, false, List, [], ◌∷◌, ℕ, zero, suc, if◌then◌else◌}
use mosaic_core.Exec.{pure, gets, modify, catch, deref, ◌>>=◌, ◌>>◌}
use mosaic_core.Env.{Env, close}
use mosaic_core.System.{Action, rtc_connecting, rtc_connected, rtc_disconnecting, put_peer}
use mosaic_core.StateManager.{set_state, is_state}
use mosaic_core.PeerConnection.{on_connection_connected, on_connection_disconnected}
use mosaic_core.PeerConnection.Tracks.{log_call, close_all_media_tracks, close_all_data_channels}

-- What a thread does next: one of the lines of `ClosePeerConnection`, or `OnConnectionConnected`.
pub data Point : Type 0 where
  tests_connected tests_connecting disconnects closes_handlers : Point
  tests_pointer calls_close drops_pointer reports_ready : Point
  reports_connected done : Point

module _ (env : Env) where
  -- A step, which runs alone, and where it leaves its thread. The exceptions that the loops over the
  -- handlers let through are caught.
  unfoldable pub advance : Point → Action env Point
  unfolding log_call on_connection_connected on_connection_disconnected ◌>>=◌
  advance tests_connected = do
    b ← gets (is_state env rtc_connected)
    pure (if b then disconnects else tests_connecting)
  advance tests_connecting = do
    b ← gets (is_state env rtc_connecting)
    pure (if b then disconnects else done)
  advance disconnects = do set_state env rtc_disconnecting; pure closes_handlers
  advance closes_handlers =
      catch (do close_all_media_tracks env; close_all_data_channels env; pure tests_pointer)
        (λ e. pure reports_ready)
  advance tests_pointer = do
    has ← gets (λ s. s.owner.peer.has_peer_connection)
    pure (if has then calls_close else reports_ready)
  advance calls_close = do
    has ← gets (λ s. s.owner.peer.has_peer_connection)
    deref has (log_call env close)
    pure drops_pointer
  advance drops_pointer = do
    modify (put_peer (λ p. record p { has_peer_connection = false }))
    pure reports_ready
  advance reports_ready = do on_connection_disconnected env; pure done
  advance reports_connected = do on_connection_connected env; pure done
  advance done = pure done

  -- One thread alone, for some steps.
  unfoldable pub alone : ℕ → Point → Action env Point
  unfolding advance ◌>>=◌
  alone zero p = pure p
  alone (suc n) p = do q ← advance p; alone n q

  -- Two threads; `true` is that the first goes next.
  unfoldable pub together : List Bool → Point → Point → Action env (Point × Point)
  unfolding advance ◌>>=◌
  together [] p q = pure (p, q)
  together (true ∷ ts) p q = do p' ← advance p; together ts p' q
  together (false ∷ ts) p q = do q' ← advance q; together ts p q'
