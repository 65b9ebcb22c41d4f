-- ===== src/Events/Negotiation.antt =====
-- The three observers of src/core/peer_connection_manager.cpp, through which WebRTC goes on with an accepted
-- offer: the remote description, the answer, the local description.
use mosaic_core.Base.{
  ℕ, zero, suc, String, ◌==◌, ◌≡◌, refl, Bool, true, false, Option, none, some, List, ◌∷◌, arith,
}
use mosaic_core.Base.Dict.{Dict}
use mosaic_core.Exec.{ok, pure, gets, when, ◌>>=◌, ◌>>◌}
use mosaic_core.Env.{Env, Call, create_answer, set_local_description, set_remote_description}
use mosaic_core.System.{System, Action}
use mosaic_core.WebSocket.{Frame, text}
use mosaic_core.Signaling.{answer_message, send_sdp_answer}
use mosaic_core.StateManager.Report.{Reliable}
use mosaic_core.PeerConnection.{
  after_set_session_description, after_create_sdp_answer, after_set_local_description,
}
use mosaic_core.PeerConnection.Tracks.{
  with_track, log_call, create_video_track, add_video_track, create_media_track,
  create_all_media_tracks,
}
use mosaic_core.PeerConnection.Loop.{for_each_inv}
use mosaic_core.Events.Wired.{Wired, present}

module _ (env : Env) where
  open env use {rtc, tracks}

  -- `SimpleSetRemoteDescriptionObserver`: a failure is only written to the log.
  unfoldable pub on_remote_description : Bool → Action env Unit
  unfolding pure
  on_remote_description true = after_set_session_description env
  on_remote_description false = pure tt

  -- `CreateSdpAnswerObserver`; `none` is a failure.
  unfoldable pub on_answer : Option rtc.Sdp → Action env Unit
  unfolding pure
  on_answer none = pure tt
  on_answer (some desc) = after_create_sdp_answer env desc

  -- `SimpleSetLocalDescriptionObserver` with the description that it was made for.
  unfoldable pub on_local_description : Bool → Option rtc.Sdp → Action env Unit
  unfolding pure
  on_local_description false desc = pure tt
  on_local_description true none = pure tt
  on_local_description true (some desc) = after_set_local_description env desc

  -- What WebRTC does once it was given an offer: it reads the newest call that was made on it and
  -- calls the observer that was handed over with that call, and goes on with what the program called
  -- then, if it reported a success. The number is how often it does that.
  abbrev observe :
      Bool → Option rtc.Sdp → Bool → List (Call rtc.Sdp rtc.Candidate) → Action env Bool
  observe remote answer local (set_remote_description sdp ∷ calls) = do
    on_remote_description remote
    pure remote
  observe remote answer local (create_answer ∷ calls) = do on_answer answer; pure (present answer)
  observe remote answer local (set_local_description desc ∷ calls) = do
    on_local_description local (some desc)
    pure false
  observe remote answer local _ = pure false

  unfoldable pub negotiate_for : ℕ → Bool → Option rtc.Sdp → Bool → Action env Unit
  unfolding on_remote_description on_answer on_local_description ◌>>=◌
  negotiate_for zero remote answer local = pure tt
  negotiate_for (suc n) remote answer local = do
    calls ← gets (λ s. s.owner.peer.calls)
    succeeded ← observe remote answer local calls
    when succeeded (negotiate_for n remote answer local)

  -- An offer, an answer and a local description.
  abbrev pub negotiate : Bool → Option rtc.Sdp → Bool → Action env Unit
  negotiate = negotiate_for 3

  -- What the tracks leave alone.
  record Same (s s' : System env) : Type 0 where
    ws : s'.ws ≡ s.ws
    signaling : s'.owner.signaling ≡ s.owner.signaling
    connection : s'.owner.peer.has_peer_connection ≡ s.owner.peer.has_peer_connection
    reporter : s'.owner.peer.has_signaling_client ≡ s.owner.peer.has_signaling_client
    factory : s'.owner.peer.has_factory ≡ s.owner.peer.has_factory
    manager : s'.owner.connector.has_manager ≡ s.owner.connector.has_manager

  -- A track handler that makes its source without an exception.
  abbrev pub Sourcing : Type 0
  Sourcing =
      (t : tracks.Handler) → (made : Bool) × ((tracks.create_video_track_source t).0 ≡ ok made)

  module _ (sourcing : Sourcing) (s : System env) (w : Wired s)
      (there : s.owner.peer.has_peer_connection ≡ true) where
    Same-create_media_track :
        (k : String) (t : tracks.Handler) (r : Dict tracks.Handler) (s' : System env)
        → Same s s'
        → ((create_media_track env k t s').0 ≡ ok tt) × Same s (create_media_track env k t s').1
    unfolding create_media_track with_track create_video_track add_video_track log_call
    Same-create_media_track k t r s' p =
        let (made, e) = sourcing t in (ground (arith, e), ground (arith, e))

    Same-create_all_media_tracks :
        ((create_all_media_tracks env s).0 ≡ ok tt) × Same s (create_all_media_tracks env s).1
    unfolding create_all_media_tracks
    Same-create_all_media_tracks =
        for_each_inv env (λ r s'. Same s s') (create_media_track env) Same-create_media_track
          s.owner.connector.media_track_handlers s
          (record {
            ws = refl;
            signaling = refl;
            connection = refl;
            reporter = refl;
            factory = refl;
            manager = refl;
          })

  -- The frames that go out: the answer, if every observer is told of a success.
  abbrev pub replying : Bool → Option rtc.Sdp → Bool → String → List Frame → List Frame
  replying true (some d) true id sent = text (env.json.write (answer_message env id d)) ∷ sent
  replying _ _ _ id sent = sent

  after_tracks :
      (sourcing : Sourcing) (n : ℕ) (answer : Option rtc.Sdp) (local : Bool) (sdp : rtc.Sdp)
      (earlier : List (Call rtc.Sdp rtc.Candidate)) (s : System env)
      → Wired s
      → s.owner.peer.calls ≡ set_remote_description sdp ∷ earlier
      → s.owner.peer.has_peer_connection ≡ true
      → (s' : System env) × Same s s'
        × (s₁ : List (Call rtc.Sdp rtc.Candidate)) × (s'.owner.peer.calls ≡ create_answer ∷ s₁)
        × (negotiate_for (suc n) true answer local s ≡ negotiate_for n true answer local s')
  unfolding negotiate_for on_remote_description after_set_session_description log_call
  after_tracks sourcing n answer local sdp earlier s w newest there =
      let (done, same) = Same-create_all_media_tracks sourcing s w there in
      let t = (create_all_media_tracks env s).1 in
      let p = record t.owner.peer { calls = create_answer ∷ t.owner.peer.calls } in
      let s' : System env = record t { owner = record t.owner { peer = p } } in
      (
        s',
        record {
          ws = same.ws;
          signaling = same.signaling;
          connection = same.connection;
          reporter = same.reporter;
          factory = same.factory;
          manager = same.manager;
        },
        t.owner.peer.calls,
        refl,
        ground (arith, done, same),
      )

  -- Behind `SetRemoteDescription`, with a peer connection, a connected socket and a connection id, the negotiation
  -- returns, whatever tracks are registered: the program's own calls lead WebRTC from one observer
  -- to the next, and if every observer is told of a success, the answer goes out as one message with
  -- that id, and if one is told of a failure, nothing is sent. The track handlers are taken to make
  -- their sources without an exception, and the network to take every frame.
  pub negotiate_lem :
      (sourcing : Sourcing) (remote : Bool) (answer : Option rtc.Sdp) (local : Bool) (sdp : rtc.Sdp)
      (earlier : List (Call rtc.Sdp rtc.Candidate)) (s : System env)
      → Wired s
      → Reliable env.net
      → s.owner.peer.calls ≡ set_remote_description sdp ∷ earlier
      → s.owner.peer.has_peer_connection ≡ true
      → s.owner.signaling.is_connected ≡ true
      → s.ws.connected ≡ true
      → (s.owner.signaling.rtc_connection_id == "") ≡ false
      → let s' = (negotiate remote answer local s).1 in
        ((negotiate remote answer local s).0 ≡ ok tt)
        × (s'.ws.sent ≡ replying remote answer local s.owner.signaling.rtc_connection_id s.ws.sent)
  unfolding negotiate_for after_create_sdp_answer after_set_local_description send_sdp_answer
      log_call
  negotiate_lem sourcing false answer local sdp earlier s w r newest there online up id =
      ground arith
  negotiate_lem sourcing true none true sdp earlier s w r newest there online up id =
      let (s', same, c, next, e) = after_tracks sourcing 2 none true sdp earlier s w newest there in
      rw e (ground (arith, same))
  negotiate_lem sourcing true none false sdp earlier s w r newest there online up id =
      let (s', same, c, next, e) =
        after_tracks sourcing 2 none false sdp earlier s w newest there in
      rw e (ground (arith, same))
  negotiate_lem sourcing true (some d) false sdp earlier s w r newest there online up id =
      let (s', same, c, next, e) =
        after_tracks sourcing 2 (some d) false sdp earlier s w newest there in
      rw e (ground (arith, same))
  negotiate_lem sourcing true (some d) true sdp earlier s w r newest there online up id =
      let (s', same, c, next, e) =
        after_tracks sourcing 2 (some d) true sdp earlier s w newest there in
      let sending =
        r s.ws.sent
          (text (env.json.write (answer_message env s.owner.signaling.rtc_connection_id d))) in
      rw e (ground (arith, same, sending))
