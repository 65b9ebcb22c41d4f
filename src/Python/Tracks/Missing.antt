-- ===== src/Python/Tracks/Missing.antt =====
-- A Python class without `start` or `stop` (python/bindings/bind_media_track.cpp) in the connection
-- of src/core/peer_connection_manager.cpp.
use mosaic_core.Base.{String, ◌≡◌, true, Option, none, ◌∷◌, List, ◌||◌, arith, eq_iff, ap, ◌∙◌}
use mosaic_core.Base.Dict.{insert}
use mosaic_core.Exec.{Exec, throws}
use mosaic_core.Env.{Env}
use mosaic_core.System.{
  System, MosaicConnector, ready_to_connect, rtc_connecting, rtc_connected, rtc_disconnecting,
}
use mosaic_core.StateManager.{set_state, is_state, state_of}
use mosaic_core.StateManager.Report.{Reliable, Linked, set_state-SetTo, set_state_ok}
use mosaic_core.MediaTrack.{Track, create_video_track_source, close}
use mosaic_core.PeerConnection.{
  close_peer_connection, release_connection, after_set_session_description,
}
use mosaic_core.PeerConnection.Tracks.{
  close_all_media_tracks, create_all_media_tracks, create_media_track, with_track, for_each,
}
use mosaic_core.PeerConnection.Close.{close_handler_throws}
use mosaic_core.Python.Tracks.{python_tracks}

module _ {X Fps Frame : Type 0} (raised : String → String)
    (method : Option (Exec (Track X Fps Frame) Unit)) (env : Env) where
  -- The system with handlers of a Python class without `stop`, and without `start`.
  abbrev pub stopless : Env
  stopless = record env { tracks = python_tracks raised (record { start = method; stop = none }) }

  abbrev pub startless : Env
  startless = record env { tracks = python_tracks raised (record { start = none; stop = method }) }

  -- The first handler throws, and is as it was.
  close_throws :
      (s : System stopless) (k : String) (t : Track X Fps Frame)
      (rest : List (String × Track X Fps Frame))
      → s.owner.connector.media_track_handlers ≡ (k, t) ∷ rest
      → ((close_all_media_tracks stopless s).0 ≡ throws (raised "stop"))
        × ((close_all_media_tracks stopless s).1.owner.connector ≡ s.owner.connector)
  unfolding close_all_media_tracks for_each with_track close insert
  close_throws s k t rest e = ground (arith, eq_iff k k)

  -- With media track handlers of a Python class without `stop`, and a network that takes every frame,
  -- `ClosePeerConnection` from RTC_CONNECTED or RTC_CONNECTING ends in READY_TO_CONNECT and has done
  -- nothing else: no handler is closed, and the peer connection is neither closed nor dropped.
  pub stopless_close :
      (s : System stopless) (k : String) (t : Track X Fps Frame)
      (rest : List (String × Track X Fps Frame))
      → Reliable env.net
      → Linked s
      → (is_state stopless rtc_connected s || is_state stopless rtc_connecting s) ≡ true
      → s.owner.connector.media_track_handlers ≡ (k, t) ∷ rest
      → let s' = (close_peer_connection stopless s).1 in
        (state_of stopless s' ≡ ready_to_connect)
        × (s'.owner.peer ≡ s.owner.peer)
        × (s'.owner.connector ≡ s.owner.connector)
  unfolding close_peer_connection release_connection
  stopless_close s k t rest r l active e =
      let s₁ = (set_state stopless rtc_disconnecting s).1 in
      let s₂ = (close_all_media_tracks stopless s₁).1 in
      let same = set_state-SetTo stopless rtc_disconnecting s in
      let h = ap (λ (c : MosaicConnector stopless). c.media_track_handlers) same.connector ∙ e in
      let (thrown, kept) = close_throws s₁ k t rest h in
      let (ready, peer) = close_handler_throws stopless s (raised "stop") r l active thrown in
      (
        ready,
        peer,
        ground (
          arith,
          set_state_ok stopless rtc_disconnecting s r l,
          same.connector,
          set_state-SetTo stopless ready_to_connect s₂,
        ),
      )

  -- With media track handlers of a Python class without `start`, what follows the remote description
  -- throws before the answer is asked for: no call of WebRTC is made, no message is sent, and the state
  -- stays.
  pub startless_answer :
      (s : System startless) (k : String) (t : Track X Fps Frame)
      (rest : List (String × Track X Fps Frame))
      → s.owner.connector.media_track_handlers ≡ (k, t) ∷ rest
      → let s' = (after_set_session_description startless s).1 in
        ((after_set_session_description startless s).0 ≡ throws (raised "start"))
        × (s'.owner.peer ≡ s.owner.peer)
        × (s'.owner.states ≡ s.owner.states)
        × (s'.ws ≡ s.ws)
  unfolding after_set_session_description create_all_media_tracks for_each create_media_track
      with_track create_video_track_source
  startless_answer s k t rest e = ground arith
