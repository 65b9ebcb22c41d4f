-- ===== src/Events/Authenticated.antt =====
-- src/signaling/signaling_client.cpp: which messages make the client authenticated.
pub mod Ungranted
pub mod Runs
use mosaic_core.Base.{
  ◌≡◌, refl, false≢true, sym, ap, ◌∙◌, subst, String, Bool, true, false, Option, none, some, List,
  [], ◌∷◌, not, ◌&&◌, ◌||◌, ◌==◌, eq_iff, arith, Bool-cases, inl, inr,
}
use mosaic_core.Base.Int.{pos, ◌==ℤ◌}
use mosaic_core.Exec.{Outcome, ok, throws, fault, Exec, catch, modify, ◌>>=◌, ◌>>◌}
use mosaic_core.Exec.Keeps.{keeps_rules}
use mosaic_core.Env.{Env}
use mosaic_core.Auth.{Authenticator}
use mosaic_core.System.{put_signaling, System, State}
use mosaic_core.WebSocket.{
  handle_message, dispatch_message, await, invoke_with, Incoming, text_message, completed, canceled,
  failed, ping_message, pong_message, close_message, binary_message,
}
use mosaic_core.Signaling.Receive.{
  on_message, on_ws_message, callbacks, parsed, dispatch, is_authenticated,
  handle_authorization_message, handle_authentication_req, handle_authentication_complete,
  with_authenticator, authenticated_by, authorized,
}
use mosaic_core.StateManager.{set_state}
use mosaic_core.PeerConnection
use mosaic_core.PeerConnection.{
  close_peer_connection, on_connection_connected, on_connection_disconnected, release_connection,
  accept_offer, open_peer_connection,
}
use mosaic_core.PeerConnection.Tracks.{
  close_all_media_tracks, close_all_data_channels, with_track, with_channel,
}
use mosaic_core.PeerConnection.Loop.{Keeps-for_each}
use mosaic_core.Events.{Event, message, step, run}

abbrev pub reads : {A : Type 0} → Outcome A → (A → Bool) → Bool
reads (ok a) f = f a
reads (throws e) f = false
reads fault f = false

module _ (env : Env) where
  open env use {json}

  -- `{"type": "authorize.res", "data": 100}`, with whatever else the value holds.
  abbrev pub grants : json.Value → Bool
  grants v = reads (json.get v "type") (λ tag.
      not (json.is_null tag)
      && reads (json.as_string tag) (λ type.
        type == "authorize.res"
        && reads (json.get v "data")
            (λ body. not (json.is_null body) && reads (json.as_int body) (λ n. n ==ℤ pos 100))))

  abbrev pub granting : String → json.Value → Bool
  granting type body =
      type == "authorize.res"
      && not (json.is_null body)
      && reads (json.as_int body) (λ n. n ==ℤ pos 100)

  abbrev pub grants_text : Option json.Value → Bool
  grants_text none = false
  grants_text (some v) = grants v

  abbrev pub is_grant : Event env → Bool
  is_grant (message (text_message completed body)) = grants_text (json.parse body)
  is_grant _ = false

  abbrev pub any_grant : List (Event env) → Bool
  any_grant [] = false
  any_grant (e ∷ es) = is_grant e || any_grant es
