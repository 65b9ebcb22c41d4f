-- ===== src/PeerConnection/Release.antt =====
-- What `ClosePeerConnection` of src/core/peer_connection_manager.cpp releases: the loops over the
-- handlers, and the peer connection.
use mosaic_core.Base.{String, ◌≡◌, refl, false, some, [], ◌∷◌, arith, if◌then◌else◌}
use mosaic_core.Base.Dict.{Dict, lookup}
use mosaic_core.Exec.{ok}
use mosaic_core.Env.{Env, close}
use mosaic_core.System.{System}
use mosaic_core.PeerConnection.{release_connection}
use mosaic_core.PeerConnection.Tracks.{
  with_track, with_channel, close_all_media_tracks, close_all_data_channels,
}
use mosaic_core.PeerConnection.Loop.{Done, Done-start, Done-insert, for_each_inv}

-- What a handler's `Close` owes its caller: it does not throw, and it closes the handler.
pub record Closing (env : Env) : Type 1 where
  pub TrackClosed : env.tracks.Handler → Type 0
  pub track_ok : (t : env.tracks.Handler) → (env.tracks.close t).0 ≡ ok tt
  pub track_closed : (t : env.tracks.Handler) → TrackClosed (env.tracks.close t).1
  pub ChannelClosed : env.channels.Handler → Type 0
  pub channel_ok : (h : env.channels.Handler) → (env.channels.close_data_channel h).0 ≡ ok tt
  pub channel_closed :
      (h : env.channels.Handler) → ChannelClosed (env.channels.close_data_channel h).1

pub record TracksLoop {env : Env} (c : Closing env) (s₀ : System env) (r : Dict env.tracks.Handler)
    (s : System env) : Type 0 where
  pub done : Done c.TrackClosed r s.owner.connector.media_track_handlers
  pub ws : s.ws ≡ s₀.ws
  pub signaling : s.owner.signaling ≡ s₀.owner.signaling
  pub states : s.owner.states ≡ s₀.owner.states
  pub peer : s.owner.peer ≡ s₀.owner.peer
  pub others : s.owner.connector.data_channel_handlers ≡ s₀.owner.connector.data_channel_handlers
  pub manager : s.owner.connector.has_manager ≡ s₀.owner.connector.has_manager

pub record ChannelsLoop {env : Env} (c : Closing env) (s₀ : System env)
    (r : Dict env.channels.Handler) (s : System env) : Type 0 where
  pub done : Done c.ChannelClosed r s.owner.connector.data_channel_handlers
  pub ws : s.ws ≡ s₀.ws
  pub signaling : s.owner.signaling ≡ s₀.owner.signaling
  pub states : s.owner.states ≡ s₀.owner.states
  pub peer : s.owner.peer ≡ s₀.owner.peer
  pub others : s.owner.connector.media_track_handlers ≡ s₀.owner.connector.media_track_handlers
  pub manager : s.owner.connector.has_manager ≡ s₀.owner.connector.has_manager

module _ (env : Env) (c : Closing env) where
  pub close_all_media_tracks_lem :
      (s : System env)
      → ((close_all_media_tracks env s).0 ≡ ok tt)
        × TracksLoop c s [] (close_all_media_tracks env s).1
  unfolding close_all_media_tracks
  close_all_media_tracks_lem s =
      for_each_inv env (TracksLoop c s) (λ k t. with_track env k t env.tracks.close)
        (λ k t r s' p. (
          c.track_ok t,
          record {
            done =
                Done-insert c.TrackClosed k t (env.tracks.close t).1 r _ (c.track_closed t) p.done;
            ws = p.ws;
            signaling = p.signaling;
            states = p.states;
            peer = p.peer;
            others = p.others;
            manager = p.manager;
          },
        ))
        s.owner.connector.media_track_handlers s
        (record {
          done = Done-start c.TrackClosed s.owner.connector.media_track_handlers;
          ws = refl;
          signaling = refl;
          states = refl;
          peer = refl;
          others = refl;
          manager = refl;
        })

  pub close_all_data_channels_lem :
      (s : System env)
      → ((close_all_data_channels env s).0 ≡ ok tt)
        × ChannelsLoop c s [] (close_all_data_channels env s).1
  unfolding close_all_data_channels
  close_all_data_channels_lem s =
      for_each_inv env (ChannelsLoop c s)
        (λ k h. with_channel env k h env.channels.close_data_channel)
        (λ k h r s' p. (
          c.channel_ok h,
          record {
            done =
                Done-insert c.ChannelClosed k h (env.channels.close_data_channel h).1 r _
                  (c.channel_closed h) p.done;
            ws = p.ws;
            signaling = p.signaling;
            states = p.states;
            peer = p.peer;
            others = p.others;
            manager = p.manager;
          },
        ))
        s.owner.connector.data_channel_handlers s
        (record {
          done = Done-start c.ChannelClosed s.owner.connector.data_channel_handlers;
          ws = refl;
          signaling = refl;
          states = refl;
          peer = refl;
          others = refl;
          manager = refl;
        })

  -- All is closed, and nothing but the handlers and the peer connection has changed.
  pub record Released (s s' : System env) : Type 0 where
    pub tracks :
        (k : String) (t : env.tracks.Handler)
        → lookup k s'.owner.connector.media_track_handlers ≡ some t
        → c.TrackClosed t
    pub channels :
        (k : String) (h : env.channels.Handler)
        → lookup k s'.owner.connector.data_channel_handlers ≡ some h
        → c.ChannelClosed h
    pub gone : s'.owner.peer.has_peer_connection ≡ false
    pub logged : s'.owner.peer.calls ≡ (
        if s.owner.peer.has_peer_connection then close ∷ s.owner.peer.calls else s.owner.peer.calls)
    pub factory : s'.owner.peer.has_factory ≡ s.owner.peer.has_factory
    pub config : s'.owner.peer.config ≡ s.owner.peer.config
    pub ws : s'.ws ≡ s.ws
    pub signaling : s'.owner.signaling ≡ s.owner.signaling
    pub states : s'.owner.states ≡ s.owner.states

  Released-of :
      (s s₁ s₂ s₃ : System env)
      → TracksLoop c s [] s₁
      → ChannelsLoop c s₁ [] s₂
      → s₃.owner.connector ≡ s₂.owner.connector
      → s₃.owner.peer.has_peer_connection ≡ false
      → s₃.owner.peer.calls ≡ (
          if s₂.owner.peer.has_peer_connection
          then close ∷ s₂.owner.peer.calls
          else s₂.owner.peer.calls)
      → s₃.owner.peer.has_factory ≡ s₂.owner.peer.has_factory
      → s₃.owner.peer.config ≡ s₂.owner.peer.config
      → s₃.ws ≡ s₂.ws
      → s₃.owner.signaling ≡ s₂.owner.signaling
      → s₃.owner.states ≡ s₂.owner.states
      → Released s s₃
  Released-of s s₁ s₂ s₃ t h conn gone logged factory config ws sig states = record {
    tracks = λ k x e. ground (arith, t.done.at k x);
    channels = λ k x e. ground (arith, h.done.at k x);
    gone = gone;
    logged = ground arith;
    factory = ground arith;
    config = ground arith;
    ws = ground arith;
    signaling = ground arith;
    states = ground arith;
  }

  pub release_connection_lem :
      (s : System env)
      → ((release_connection env s).0 ≡ ok tt) × Released s (release_connection env s).1
  unfolding release_connection
  release_connection_lem s =
      let s₁ = (close_all_media_tracks env s).1 in
      let s₂ = (close_all_data_channels env s₁).1 in
      let t = close_all_media_tracks_lem s in
      let h = close_all_data_channels_lem s₁ in
      (
        ground (arith, t.0, h.0),
        Released-of s s₁ s₂ _ t.1 h.1 (ground (arith, t.0, h.0)) (ground (arith, t.0, h.0))
            (ground (arith, t.0, h.0)) (ground (arith, t.0, h.0)) (ground (arith, t.0, h.0))
            (ground (arith, t.0, h.0)) (ground (arith, t.0, h.0)) (ground (arith, t.0, h.0)),
      )
