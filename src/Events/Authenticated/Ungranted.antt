-- ===== src/Events/Authenticated/Ungranted.antt =====
-- src/signaling/signaling_client.cpp and src/security: the authenticator behind what is no grant.
use mosaic_core.Base.{◌≡◌, sym, ap, ◌∙◌, subst, String, Bool, false, Option, some, arith}
use mosaic_core.Exec.{modify}
use mosaic_core.Exec.Keeps.{keeps_rules}
use mosaic_core.Env.{Env}
use mosaic_core.Auth.{Authenticator}
use mosaic_core.System.{System, State}
use mosaic_core.WebSocket.{
  Incoming, text_message, completed, canceled, failed, ping_message, pong_message, close_message,
  binary_message,
}
use mosaic_core.Signaling.Receive.{
  handle_authorization_message, handle_authentication_req, with_authenticator, authenticated_by,
  authorized,
}
use mosaic_core.StateManager.{set_state}
use mosaic_core.PeerConnection
use mosaic_core.PeerConnection.{
  close_peer_connection, on_connection_connected, on_connection_disconnected, release_connection,
  accept_offer, open_peer_connection,
}
use mosaic_core.PeerConnection.Tracks.{
  close_all_media_tracks, close_all_data_channels, with_track, with_channel,
}
use mosaic_core.PeerConnection.Loop.{Keeps-for_each}
use mosaic_core.Events.{Event, message, step}
use mosaic_core.Events.Messages.{
  OnState, Kept, ReadAs, value_of, Kept-send_ws_message, Kept-report_state, Kept-with_authenticator,
}
use mosaic_core.Events.Messages.Handled.{Kept-message}
use mosaic_core.Events.Keeps.{Kept-step}
use mosaic_core.Events.Authenticated.{grants, granting, grants_text, is_grant}

module _ (env : Env) where
  open env use {json}

  ungranting :
      (v : json.Value) (type : String) (body : json.Value)
      → ReadAs env v type body
      → grants env v ≡ false
      → granting env type body ≡ false
  ungranting v type body r g = ground (arith, r.typed, r.present, r.named, r.held)

  ungranted :
      (m : Incoming) (v : json.Value) (type : String) (body : json.Value)
      → value_of env m ≡ some v
      → ReadAs env v type body
      → is_grant env (message m) ≡ false
      → granting env type body ≡ false
  ungranted (text_message completed text) v type body known r g =
      ungranting v type body r (sym (ap (grants_text env) known) ∙ g)
  ungranted (text_message canceled text) v type body known r g = cc
  ungranted (text_message (failed e) text) v type body known r g = cc
  ungranted ping_message v type body known r g = cc
  ungranted pong_message v type body known r g = cc
  ungranted close_message v type body known r g = cc
  ungranted binary_message v type body known r g = cc

  module _ (x : Option Authenticator) where
    abbrev pub Is : Option Authenticator → State → Bool → Type 0
    Is a m has = a ≡ x

    pub Is-set_state : (n : State) → Kept env Is (set_state env n)
    unfolding set_state modify
    Is-set_state n = search (keeps_rules, Kept-report_state) depth 7

    Is-close_all_media_tracks : Kept env Is (close_all_media_tracks env)
    unfolding close_all_media_tracks with_track
    Is-close_all_media_tracks = record {
      at = λ s.
          (Keeps-for_each env {P = λ (s' : System env). OnState env Is s'.owner}
              (λ k t. with_track env k t env.tracks.close) (λ k t. record { at = λ s' h. h })
              s.owner.connector.media_track_handlers).at
            s;
    }

    Is-close_all_data_channels : Kept env Is (close_all_data_channels env)
    unfolding close_all_data_channels with_channel
    Is-close_all_data_channels = record {
      at = λ s.
          (Keeps-for_each env {P = λ (s' : System env). OnState env Is s'.owner}
              (λ k t. with_channel env k t env.channels.close_data_channel)
              (λ k t. record { at = λ s' h. h }) s.owner.connector.data_channel_handlers).at
            s;
    }

    Is-release_connection : Kept env Is (release_connection env)
    unfolding release_connection modify
    Is-release_connection =
        search (keeps_rules, Is-close_all_media_tracks, Is-close_all_data_channels) depth 9

    Is-close : Kept env Is (close_peer_connection env)
    unfolding close_peer_connection on_connection_disconnected
    Is-close = search (keeps_rules, Is-set_state, Is-release_connection) depth 9

    Is-open : Kept env Is (open_peer_connection env)
    unfolding open_peer_connection modify
    Is-open = search (keeps_rules) depth 9

    Is-offer : (sdp : env.rtc.Sdp) → Kept env Is (PeerConnection.handle_sdp_offer env sdp)
    unfolding PeerConnection.handle_sdp_offer accept_offer
    Is-offer sdp = search (keeps_rules, Is-close, Is-set_state, Is-open) depth 12

    Is-connected : Kept env Is (on_connection_connected env)
    unfolding on_connection_connected
    Is-connected = Is-set_state _

    Is-request : Kept env Is (with_authenticator env (handle_authentication_req env))
    unfolding handle_authentication_req
    Is-request = Kept-with_authenticator env Is _ (λ a. Kept-send_ws_message env Is _)

    Is-refused :
        (type : String) (body : json.Value)
        → granting env type body ≡ false
        → Kept env Is (handle_authorization_message env type body)
    unfolding handle_authorization_message authorized with_authenticator authenticated_by
    Is-refused type body g = record { at = λ s h. ground (arith, Is-request.at s h) }

    pub Is-step : (e : Event env) → is_grant env e ≡ false → Kept env Is (step env e)
    Is-step e g =
        Kept-step env Is Is-offer Is-close e
          (λ m same. Kept-message env Is Is-offer Is-close m (λ v known type body r.
            Is-refused type body
              (ungranted m v type body known r (subst (λ e'. is_grant env e' ≡ false) same g))))
          (λ up. Is-connected)
