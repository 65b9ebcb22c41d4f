-- ===== src/PeerConnection/Tracks.antt =====
-- The loops of src/core/mosaic_connector.cpp over the handlers, which the peer connection manager
-- runs, with `CreateVideoTrack` and `AddTrack` of src/core/peer_connection_manager.cpp.
use mosaic_core.Base.{String, Bool, [], ◌∷◌}
use mosaic_core.Base.Dict.{Dict, insert}
use mosaic_core.Exec.{Exec, pure, gets, modify, when, deref, ◌>>=◌, ◌>>◌}
use mosaic_core.Env.{Env, Call, add_track}
use mosaic_core.System.{Action, put_peer, put_connector}

module _ (env : Env) where
  open env use {rtc, channels, tracks}

  -- A method call on the handler that the map holds under `k`.
  unfoldable pub with_track :
      {A : Type 0} → String → tracks.Handler → Exec tracks.Handler A → Action env A
  with_track k t m s =
      let (o, t') = m t in
      (
        o,
        put_connector (λ c. record c { media_track_handlers = insert k t' c.media_track_handlers })
            s,
      )

  unfoldable pub with_channel :
      {A : Type 0} → String → channels.Handler → Exec channels.Handler A → Action env A
  with_channel k h m s =
      let (o, h') = m h in
      (
        o,
        put_connector
            (λ c. record c { data_channel_handlers = insert k h' c.data_channel_handlers }) s,
      )

  unfoldable pub log_call : Call rtc.Sdp rtc.Candidate → Action env Unit
  log_call c = modify (put_peer (λ p. record p { calls = c ∷ p.calls }))

  -- `for (const auto& [k, t] : dict) body`: the body changes only the entry that it is at.
  unfoldable pub for_each {ℓ} :
      {H : Type ℓ} → Dict H → (String → H → Action env Unit) → Action env Unit
  for_each [] body = pure tt
  for_each ((k, h) ∷ rest) body = body k h >> for_each rest body

  -- `CreateVideoTrack`, whose result is null or a track.
  unfoldable pub create_video_track : String → Action env Bool
  unfolding ◌>>=◌
  create_video_track name = do
    peer ← gets (λ s. s.owner.peer)
    deref peer.has_factory (pure (rtc.creates_video_track peer.calls name))

  -- `AddTrack`; its result is only written to the log.
  unfoldable pub add_video_track : String → Action env Unit
  unfolding log_call ◌>>=◌
  add_video_track name = do
    has ← gets (λ s. s.owner.peer.has_peer_connection)
    deref has (log_call (add_track name))

  unfoldable pub create_media_track : String → tracks.Handler → Action env Unit
  unfolding with_track create_video_track add_video_track ◌>>=◌
  create_media_track name t = do
    source ← with_track name t tracks.create_video_track_source
    when source (do
      manager ← gets (λ s. s.owner.connector.has_manager)
      track ← deref manager (create_video_track name)
      when track (add_video_track name))

  unfoldable pub create_all_media_tracks : Action env Unit
  unfolding for_each create_media_track ◌>>=◌
  create_all_media_tracks = do
    dict ← gets (λ s. s.owner.connector.media_track_handlers)
    for_each dict create_media_track

  unfoldable pub close_all_media_tracks : Action env Unit
  unfolding for_each with_track ◌>>=◌
  close_all_media_tracks = do
    dict ← gets (λ s. s.owner.connector.media_track_handlers)
    for_each dict (λ k t. with_track k t tracks.close)

  unfoldable pub close_all_data_channels : Action env Unit
  unfolding for_each with_channel ◌>>=◌
  close_all_data_channels = do
    dict ← gets (λ s. s.owner.connector.data_channel_handlers)
    for_each dict (λ k h. with_channel k h channels.close_data_channel)
