-- ===== src/Events/Authenticated/Runs.antt =====
-- src/signaling/signaling_client.cpp and src/security: grants, and the authenticator behind a run.
use mosaic_core.Base.{
  ◌≡◌, refl, false≢true, ap, ◌∙◌, Bool, true, false, Option, none, some, List, [], ◌∷◌, not, ◌&&◌,
  ◌||◌, ◌==◌, eq_iff, arith, Bool-cases, inl, inr,
}
use mosaic_core.Base.Int.{pos, ◌==ℤ◌}
use mosaic_core.Exec.{Outcome, ok, throws, fault, catch, modify, ◌>>=◌}
use mosaic_core.Env.{Env}
use mosaic_core.Auth.{Authenticator}
use mosaic_core.System.{put_signaling, System}
use mosaic_core.WebSocket.{
  handle_message, dispatch_message, await, invoke_with, text_message, completed,
}
use mosaic_core.Signaling.Receive.{
  on_message, on_ws_message, callbacks, parsed, dispatch, is_authenticated,
  handle_authorization_message, handle_authentication_complete, with_authenticator,
  authenticated_by, authorized,
}
use mosaic_core.Events.{Event, message, step, run}
use mosaic_core.Events.Messages.{ReadAs}
use mosaic_core.Events.Authenticated.{reads, grants, granting, grants_text, is_grant, any_grant}
use mosaic_core.Events.Authenticated.Ungranted.{Is-step}

reads_ok :
    {A : Type 0} (o : Outcome A) (f : A → Bool)
    → reads o f ≡ true
    → (a : A) × (o ≡ ok a) × (f a ≡ true)
reads_ok (ok a) f h = (a, refl, h)
reads_ok (throws e) f h = absurd (false≢true h)
reads_ok fault f h = absurd (false≢true h)

both : (b c : Bool) → b && c ≡ true → (b ≡ true) × (c ≡ true)
both b c h = ground arith

abbrev flagged : Authenticator → Bool → Option Authenticator
flagged a b = some (record a { authenticated = b })

module _ (env : Env) where
  open env use {json}

  -- What a grant holds.
  record Grant (v : json.Value) : Type 0 where
    body : json.Value
    read : ReadAs env v "authorize.res" body
    grants_it : granting env "authorize.res" body ≡ true

  grants-Grant : (v : json.Value) → grants env v ≡ true → Grant v
  grants-Grant v g =
      let (tag, typed, g₁) = reads_ok (json.get v "type") _ g in
      let (present, g₂) = both _ _ g₁ in
      let (type, named, g₃) = reads_ok (json.as_string tag) _ g₂ in
      let (is_res, g₄) = both (type == "authorize.res") _ g₃ in
      let (body, held, g₅) = reads_ok (json.get v "data") _ g₄ in
      let same = (eq_iff type "authorize.res").0 is_res in
      record {
        body = body;
        read = record {
          tag = tag;
          typed = typed;
          present = present;
          named = named ∙ ap ok same;
          held = held;
        };
        grants_it = g₅;
      }

  authorization_granted :
      (body : json.Value) (a : Authenticator) (s : System env)
      → granting env "authorize.res" body ≡ true
      → s.owner.signaling.authenticator ≡ some a
      → handle_authorization_message env "authorize.res" body s
        ≡ (ok tt, put_signaling (λ c. record c { authenticator = flagged a true }) s)
  unfolding handle_authorization_message authorized with_authenticator authenticated_by
      handle_authentication_complete ◌>>=◌ modify
  authorization_granted body a s g h =
      let g₀ : not (json.is_null body) && reads (json.as_int body) (λ n. n ==ℤ pos 100) ≡ true =
        g in
      let (given, read) = both (not (json.is_null body)) _ g₀ in
      let null : json.is_null body ≡ false = ground arith in
      let (n, e, hundred) = reads_ok (json.as_int body) (λ n. n ==ℤ pos 100) read in
      rw null (rw e (rw hundred (rw h refl)))

  -- A grant that comes in sets the flag of the authenticator and does nothing else.
  granted :
      (v : json.Value) (a : Authenticator) (s : System env)
      → grants env v ≡ true
      → s.owner.signaling.authenticator ≡ some a
      → on_message env v s
        ≡ (ok tt, put_signaling (λ c. record c { authenticator = flagged a true }) s)
  unfolding on_message dispatch ◌>>=◌
  granted v a s g h =
      let k = grants-Grant v g in
      rw k.read.typed (
        rw k.read.present
          (rw k.read.named (rw k.read.held (authorization_granted k.body a s k.grants_it h))))

  parsed_granted :
      (o : Option json.Value) (a : Authenticator) (s : System env)
      → grants_text env o ≡ true
      → s.owner.signaling.authenticator ≡ some a
      → parsed env o s ≡ (ok tt, put_signaling (λ c. record c { authenticator = flagged a true }) s)
  unfolding parsed
  parsed_granted none a s g h = absurd (false≢true g)
  parsed_granted (some v) a s g h = granted v a s g h

  step_granted :
      (e : Event env) (a : Authenticator) (s : System env)
      → is_grant env e ≡ true
      → s.owner.signaling.authenticator ≡ some a
      → (step env e s).1.owner.signaling.authenticator ≡ flagged a true
  unfolding step handle_message dispatch_message await invoke_with callbacks on_ws_message catch
  step_granted (message (text_message completed body)) a s g h =
      rw (parsed_granted (json.parse body) a s g h) refl
  step_granted e a s g h = absurd (false≢true g)

  run_authenticator :
      (es : List (Event env)) (s : System env) (a : Authenticator)
      → s.owner.signaling.authenticator ≡ some a
      → (run env es s).owner.signaling.authenticator
        ≡ flagged a (a.authenticated || any_grant env es)
  unfolding run
  run_authenticator [] s a h = h ∙ ap (flagged a) (ground arith)
  run_authenticator (e ∷ es) s a h = elim (Bool-cases (is_grant env e)) [
    | inl g ↦
        run_authenticator es (step env e s).1 (record a { authenticated = true })
          (step_granted e a s g h)
        ∙ ap (flagged a) (ground arith)
    | inr g ↦
        run_authenticator es (step env e s).1 a ((Is-step env (some a) e g).at s h)
        ∙ ap (flagged a) (ground arith)
  ]

  -- Whatever the server sends, the network does and WebRTC reports, in whatever order: a client with an
  -- authenticator is authenticated after a run exactly if it was before, or if one of the messages
  -- whose text came in was a grant, a value with the type "authorize.res" and the data 100.
  pub run_authenticated :
      (es : List (Event env)) (s : System env) (a : Authenticator)
      → s.owner.signaling.authenticator ≡ some a
      → is_authenticated env (run env es s)
        ≡ (ok (a.authenticated || any_grant env es), run env es s)
  unfolding is_authenticated ◌>>=◌
  run_authenticated es s a h = rw (run_authenticator es s a h) refl
