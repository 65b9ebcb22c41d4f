-- ===== src/Factory/Tied.antt =====
-- src/core/mosaic_connector_factory.cpp: what `Create` ties together.
use mosaic_core.Base.{◌∙◌, [], ◌∷◌, ap, refl, ◌≡◌, true, Option, none, some, List, arith}
use mosaic_core.Exec.{ok, pure, modify, ◌>>=◌, ◌>>◌}
use mosaic_core.Connector.{unless_found, add_data_channel_handler, add_media_track_handler}
use mosaic_core.Config.{ServerConfig}
use mosaic_core.Auth.{Authenticator, create_authenticator}
use mosaic_core.Env.{Env}
use mosaic_core.System.{
  Action, put_connector, System, PeerConnectionManager, MosaicConnector, ready_to_connect,
}
use mosaic_core.WebSocket.{Task, completed, canceled, failed, connect, connect_internal}
use mosaic_core.Signaling.Receive.{start, callbacks, on_connected}
use mosaic_core.StateManager.Report.{SetTo, set_state-SetTo}
use mosaic_core.PeerConnection.{initialize_webrtc}
use mosaic_core.Factory.{fresh, create, create_signaling, create_connector}
use mosaic_core.Events.{Event}
use mosaic_core.Events.Wired.{Wired, Tame, present}
use mosaic_core.Events.Unbroken.{AllTimely, NoneFaults, run_fine}

module _ (env : Env) where
  -- What there is between the two halves of `Create`.
  record Half (s : System env) : Type 0 where
    client : s.ws.has_client ≡ true
    ws_client : s.owner.signaling.has_ws_client ≡ true
    authenticator : present s.owner.signaling.authenticator ≡ true

  create_signaling-Half :
      (c : ServerConfig) (dial : Task) (o : Option Authenticator)
      → create_authenticator c.auth_config ≡ o
      → (create_signaling env c dial (fresh env c)).0 ≡ ok true
      → Half (create_signaling env c dial (fresh env c)).1
  unfolding create_signaling start connect connect_internal callbacks on_connected
  create_signaling-Half c completed none known e = ground arith
  create_signaling-Half c canceled none known e = ground arith
  create_signaling-Half c (failed x) none known e = ground arith
  create_signaling-Half c completed (some a) known e = ground arith
  create_signaling-Half c canceled (some a) known e = ground arith
  create_signaling-Half c (failed x) (some a) known e = ground arith

  tied_of :
      (s s' : System env)
      → Half s
      → SetTo ready_to_connect s s'
      → s.owner.signaling.has_connector ≡ true
      → s.owner.connector.has_manager ≡ true
      → s.owner.peer.has_signaling_client ≡ true
      → s.owner.peer.has_factory ≡ true
      → Wired s'
  tied_of s s' h e connector manager reporter factory =
      let peer_reporter = ap (λ (p : PeerConnectionManager env). p.has_signaling_client) e.peer in
      let peer_factory = ap (λ (p : PeerConnectionManager env). p.has_factory) e.peer in
      let kept = ap (λ (c : MosaicConnector env). c.has_manager) e.connector in
      record {
        client = ground arith;
        ws_client = ground arith;
        connector = ground arith;
        authenticator = ground arith;
        manager = ground arith;
        reporter = ground arith;
        factory = ground arith;
      }

  create_connector-Wired :
      (c : ServerConfig) (s : System env)
      → env.rtc.creates_factory ≡ true
      → Half s
      → Wired (create_connector env c s).1
  unfolding create_connector initialize_webrtc
  create_connector-Wired c s f h =
      tied_of _ _
        (record { client = h.client; ws_client = h.ws_client; authenticator = h.authenticator })
        (set_state-SetTo env ready_to_connect _) refl refl refl f

  -- If WebRTC gives a factory, `Create` leaves the objects tied together whenever it gives a connector, whether
  -- or not the server could be reached.
  pub create-Wired :
      (c : ServerConfig) (dial : Task)
      → env.rtc.creates_factory ≡ true
      → (create env c dial (fresh env c)).0 ≡ ok true
      → Wired (create env c dial (fresh env c)).1
  unfolding create
  create-Wired c dial f e =
      let s₁ = (create_signaling env c dial (fresh env c)).1 in
      ground (
        arith,
        create_signaling-Half c dial (create_authenticator c.auth_config) refl,
        create_connector-Wired c s₁ f,
      )

  -- What the program registers between `Create` and the first event.
  pub data Registration : Type 0 where
    channel_handler : env.channels.Handler → Registration
    track_handler : env.tracks.Handler → Registration

  unfoldable register : Registration → Action env Unit
  unfolding add_data_channel_handler add_media_track_handler
  register (channel_handler h) = add_data_channel_handler env h
  register (track_handler t) = add_media_track_handler env t

  unfoldable pub register_all : List Registration → Action env Unit
  unfolding register ◌>>=◌
  register_all [] = pure tt
  register_all (r ∷ rest) = register r >> register_all rest

  put_connector-Wired :
      {V : Type 0} (o : Option V) (f : MosaicConnector env → MosaicConnector env) (s : System env)
      → ((c : MosaicConnector env) → (f c).has_manager ≡ c.has_manager)
      → Wired s
      → Wired (unless_found env o (modify (put_connector f)) s).1
  unfolding modify pure
  put_connector-Wired none f s kept w = record {
    client = w.client;
    ws_client = w.ws_client;
    connector = w.connector;
    authenticator = w.authenticator;
    manager = kept s.owner.connector ∙ w.manager;
    reporter = w.reporter;
    factory = w.factory;
  }
  put_connector-Wired (some v) f s kept w = w

  register-Wired : (r : Registration) (s : System env) → Wired s → Wired (register r s).1
  unfolding register add_data_channel_handler add_media_track_handler ◌>>=◌
  register-Wired (channel_handler h) s w = put_connector-Wired _ _ s (λ c. refl) w
  register-Wired (track_handler t) s w = put_connector-Wired _ _ s (λ c. refl) w

  register-ok : (r : Registration) (s : System env) → (register r s).0 ≡ ok tt
  unfolding register add_data_channel_handler add_media_track_handler ◌>>=◌
  register-ok (channel_handler h) s = ground arith
  register-ok (track_handler t) s = ground arith

  register_all-Wired :
      (rs : List Registration) (s : System env) → Wired s → Wired (register_all rs s).1
  unfolding register_all
  register_all-Wired [] s w = w
  register_all-Wired (r ∷ rs) s w =
      ground (arith, register-ok r s, register_all-Wired rs (register r s).1 (register-Wired r s w))

  -- After `Create` and the registration of any handlers, no message of the server, whatever it
  -- holds, no loss of the socket and no report of WebRTC ends in a call through a null pointer, in
  -- whatever order they come, and a network that refuses frames does not change that. Each event is
  -- taken to be handled to its end before the next comes: two threads that are in
  -- `ClosePeerConnection` at once are left out. What is asked is that WebRTC gave a factory, that jsoncpp and
  -- the handlers do no worse than throw, that an answer and a remote description find the peer
  -- connection still there, and that the network takes every frame when the state is broadcast. Of
  -- the messages only those are meant that come when the handlers are registered.
  pub created_run_fine :
      (t : Tame env) (c : ServerConfig) (dial : Task) (rs : List Registration)
      (es : List (Event env))
      → env.rtc.creates_factory ≡ true
      → (create env c dial (fresh env c)).0 ≡ ok true
      → AllTimely env es (register_all rs (create env c dial (fresh env c)).1).1
      → NoneFaults env es (register_all rs (create env c dial (fresh env c)).1).1
  created_run_fine t c dial rs es f made timely =
      let s = (create env c dial (fresh env c)).1 in
      run_fine env t es (register_all rs s).1 (register_all-Wired rs s (create-Wired c dial f made))
        timely
