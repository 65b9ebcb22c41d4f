-- ===== src/Events/Armed.antt =====
-- src/core/peer_connection_manager.cpp: the steps of the negotiation that call the peer connection.
use mosaic_core.Base.{String, ◌≡◌, ◌≢◌, Bool, true, arith}
use mosaic_core.Exec.{fault, Exec, gets, modify, ◌>>=◌}
use mosaic_core.Exec.Safe.{Safe, Safe-flag, safe_rules}
use mosaic_core.Env.{Env, Call}
use mosaic_core.System.{System, Action}
use mosaic_core.PeerConnection.Loop.{Safe-for_each}
use mosaic_core.PeerConnection.Tracks.{
  with_track, log_call, create_video_track, add_video_track, create_media_track,
  create_all_media_tracks,
}
use mosaic_core.Events.Wired.{Wired, Tame}
use mosaic_core.PeerConnection.{after_set_session_description, after_create_sdp_answer}

module _ (env : Env) (t : Tame env) where
  -- The pointers, and a peer connection.
  abbrev pub Armed : System env → Type 0
  Armed s = Wired s × (s.owner.peer.has_peer_connection ≡ true)

  Armed-with_track :
      {A : Type 0} (k : String) (x : env.tracks.Handler) (m : Exec env.tracks.Handler A)
      → (m x).0 ≢ fault
      → Safe Armed (with_track env k x m)
  unfolding with_track
  Armed-with_track k x m h = record { at = λ s w. ground arith; fine = λ s w. h }

  Armed-create_video_track : (name : String) → Safe Armed (create_video_track env name)
  unfolding create_video_track
  Armed-create_video_track name = record { at = λ s w. ground arith; fine = λ s w. ground arith }

  Armed-add_video_track : (name : String) → Safe Armed (add_video_track env name)
  unfolding add_video_track log_call
  Armed-add_video_track name = record { at = λ s w. ground arith; fine = λ s w. ground arith }

  Armed-manager :
      {A : Type 0} (rest : Bool → Action env A)
      → Safe Armed (rest true)
      → Safe Armed (gets (λ s. s.owner.connector.has_manager) >>= rest)
  Armed-manager rest k = Safe-flag (λ s. s.owner.connector.has_manager) rest (λ s w. w.0.manager) k

  Armed-create_media_track :
      (name : String) (x : env.tracks.Handler) → Safe Armed (create_media_track env name x)
  unfolding create_media_track
  Armed-create_media_track name x =
      search
        (
          safe_rules, Armed-with_track, t.track_create, Armed-manager, Armed-create_video_track,
          Armed-add_video_track,
        )
        depth 12

  Armed-create_all_media_tracks : Safe Armed (create_all_media_tracks env)
  unfolding create_all_media_tracks
  Armed-create_all_media_tracks = search (safe_rules, Safe-for_each env, Armed-create_media_track)

  Armed-log_call : (c : Call env.rtc.Sdp env.rtc.Candidate) → Safe Armed (log_call env c)
  unfolding log_call modify
  Armed-log_call c = record { at = λ s w. ground arith; fine = λ s w. ground arith }

  Armed-peer_connection :
      {A : Type 0} (rest : Bool → Action env A)
      → Safe Armed (rest true)
      → Safe Armed (gets (λ s. s.owner.peer.has_peer_connection) >>= rest)
  Armed-peer_connection rest k =
      Safe-flag (λ s. s.owner.peer.has_peer_connection) rest (λ s w. w.1) k

  pub Armed-after_set_session_description : Safe Armed (after_set_session_description env)
  unfolding after_set_session_description
  Armed-after_set_session_description =
      search (safe_rules, Armed-create_all_media_tracks, Armed-peer_connection, Armed-log_call)
        depth 9

  pub Armed-after_create_sdp_answer : (d : env.rtc.Sdp) → Safe Armed (after_create_sdp_answer env d)
  unfolding after_create_sdp_answer
  Armed-after_create_sdp_answer d = search (safe_rules, Armed-peer_connection, Armed-log_call)
