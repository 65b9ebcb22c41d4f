-- ===== src/Factory/Unauthenticated.antt =====
-- src/core/mosaic_connector_factory.cpp: the client that `Create` makes is not authenticated.
use mosaic_core.Base.{refl, ◌≡◌, false, true, sym, ap, ◌∙◌, Option, none, some, List, arith}
use mosaic_core.Exec.{ok, modify}
use mosaic_core.Exec.Keeps.{keeps_rules}
use mosaic_core.Config.{AuthConfig, ServerConfig}
use mosaic_core.Auth.{Authenticator, create_authenticator, create_authenticator_lem}
use mosaic_core.Env.{Env}
use mosaic_core.System.{System}
use mosaic_core.WebSocket.{Task, completed, canceled, failed, connect, connect_internal}
use mosaic_core.Signaling.Receive.{start, callbacks, on_connected, is_authenticated}
use mosaic_core.PeerConnection.{initialize_webrtc}
use mosaic_core.Factory.{fresh, create, create_signaling, create_connector}
use mosaic_core.Events.{Event, run}
use mosaic_core.Events.Messages.{Kept}
use mosaic_core.Events.Authenticated.{any_grant}
use mosaic_core.Events.Authenticated.Ungranted.{Is, Is-set_state}
use mosaic_core.Events.Authenticated.Runs.{run_authenticated}

made_unauthenticated :
    (c : AuthConfig) (a : Authenticator) → create_authenticator c ≡ some a → a.authenticated ≡ false
made_unauthenticated c a e = let f = sym (create_authenticator_lem c) ∙ e in ground arith

module _ (env : Env) where
  record Unauthenticated (s : System env) : Type 0 where
    authenticator : Authenticator
    is_it : s.owner.signaling.authenticator ≡ some authenticator
    not_yet : authenticator.authenticated ≡ false

  create_signaling-Unauthenticated :
      (c : ServerConfig) (dial : Task) (o : Option Authenticator)
      → create_authenticator c.auth_config ≡ o
      → (create_signaling env c dial (fresh env c)).0 ≡ ok true
      → Unauthenticated (create_signaling env c dial (fresh env c)).1
  unfolding create_signaling start connect connect_internal callbacks on_connected
  create_signaling-Unauthenticated c dial none known e = absurd (ground arith)
  create_signaling-Unauthenticated c completed (some a) known e = record {
    authenticator = a;
    is_it = ground arith;
    not_yet = made_unauthenticated _ a known;
  }
  create_signaling-Unauthenticated c canceled (some a) known e = record {
    authenticator = a;
    is_it = ground arith;
    not_yet = made_unauthenticated _ a known;
  }
  create_signaling-Unauthenticated c (failed x) (some a) known e = record {
    authenticator = a;
    is_it = ground arith;
    not_yet = made_unauthenticated _ a known;
  }

  Is-create_connector :
      (x : Option Authenticator) (c : ServerConfig) → Kept env (Is env x) (create_connector env c)
  unfolding create_connector initialize_webrtc modify
  Is-create_connector x c = search (keeps_rules, Is-set_state) depth 15

  -- The two halves of a `Create` that gives a connector.
  create_halves :
      (c : ServerConfig) (dial : Task)
      → (create env c dial (fresh env c)).0 ≡ ok true
      → ((create_signaling env c dial (fresh env c)).0 ≡ ok true)
        × ((create env c dial (fresh env c)).1
            ≡ (create_connector env c (create_signaling env c dial (fresh env c)).1).1)
  unfolding create
  create_halves c dial e = (ground arith, ground arith)

  create-Unauthenticated :
      (c : ServerConfig) (dial : Task)
      → (create env c dial (fresh env c)).0 ≡ ok true
      → Unauthenticated (create env c dial (fresh env c)).1
  create-Unauthenticated c dial e =
      let (first, second) = create_halves c dial e in
      let s₁ = (create_signaling env c dial (fresh env c)).1 in
      let u =
        create_signaling-Unauthenticated c dial (create_authenticator c.auth_config) refl first in
      record {
        authenticator = u.authenticator;
        is_it =
            ap (λ (s : System env). s.owner.signaling.authenticator) second
            ∙ (Is-create_connector (some u.authenticator) c).at s₁ u.is_it;
        not_yet = u.not_yet;
      }

  -- From `Create` on, whatever the server sends, the network does and WebRTC reports, in whatever
  -- order: a connector that `Create` gave is authenticated exactly if one of the messages whose text
  -- came in is a grant, a value with the type "authorize.res" and the data 100.
  pub created_authenticated :
      (c : ServerConfig) (dial : Task) (es : List (Event env))
      → (create env c dial (fresh env c)).0 ≡ ok true
      → let s = (create env c dial (fresh env c)).1 in
        is_authenticated env (run env es s) ≡ (ok (any_grant env es), run env es s)
  created_authenticated c dial es e =
      let u = create-Unauthenticated c dial e in
      rw (run_authenticated env es (create env c dial (fresh env c)).1 u.authenticator u.is_it)
        (rw u.not_yet refl)
