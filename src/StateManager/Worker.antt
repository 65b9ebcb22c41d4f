-- ===== src/StateManager/Worker.antt =====
-- The thread of src/core/connector_state_manager.cpp that reports the state, and the destructor,
-- which tells it to end and joins it.
use mosaic_core.Base.{
  ℕ, zero, suc, ◌+◌, ◌≡◌, ◌∙◌, refl, Bool, true, false, Option, none, some, arith, if◌then◌else◌,
  if-true, if-false, Bool-cases, inl, inr, false≢true, subst,
}
use mosaic_core.Exec.{Outcome, ok, throws, fault, modify}
use mosaic_core.Env.{Env}
use mosaic_core.System.{System, put_states}
use mosaic_core.StateManager.{broadcast_round}

module _ (env : Env) where
  -- What a round, or the thread, came to.
  abbrev Left : Type 0
  Left = Outcome {0} Unit × System env

  -- The first line of the destructor.
  unfoldable stop : System env → System env
  unfolding modify
  stop s = (modify (put_states (λ m. record m { stop_flag = true })) s).1

  -- Whether the destructor has come here.
  abbrev told : Bool → System env → System env
  told true s = stop s
  told false s = s

  abbrev after_round : Outcome {0} Unit → System env → Option Left → Option Left
  after_round (ok _) s rest = rest
  after_round (throws e) s rest = some (throws e, s)
  after_round fault s rest = some (fault, s)

  -- The loop from round `n` on. In it the destructor has set the flag by the test of the loop if
  -- `stops n`, and by the test after the wait if `wakes n`; `others n` is what the other threads do
  -- during the wait. `none` is that the rounds did not do.
  unfoldable pub state_broadcast_worker :
      ℕ → (ℕ → Bool) → (ℕ → Bool) → (ℕ → System env → System env) → ℕ → System env → Option Left
  unfolding broadcast_round stop
  state_broadcast_worker zero stops wakes others n s = none
  state_broadcast_worker (suc rounds) stops wakes others n s =
      let here = told (stops n) s in
      let r = broadcast_round env (told (wakes n) (others n here)) in
      let rest = state_broadcast_worker rounds stops wakes others (suc n) r.1 in
      if here.owner.states.stop_flag then some (ok tt, here) else after_round r.0 r.1 rest

  told-flag : (b : Bool) (s : System env) → b ≡ true → (told b s).owner.states.stop_flag ≡ true
  unfolding stop
  told-flag true s e = refl
  told-flag false s e = absurd (false≢true e)

  after_round_lem :
      (o : Outcome {0} Unit) (s : System env) (rest : Option Left)
      → ((r : Left) × (rest ≡ some r))
      → (r : Left) × (after_round o s rest ≡ some r)
  after_round_lem (ok _) s rest h = h
  after_round_lem (throws e) s rest h = ((throws e, s), refl)
  after_round_lem fault s rest h = ((fault, s), refl)

  -- A thread that is told to end by round `n + k` ends by that round, in `k + 1` tests, whatever the
  -- other threads do and the network answers, so that the `join` of the destructor returns.
  state_broadcast_worker_ends :
      (k n : ℕ) (stops wakes : ℕ → Bool) (others : ℕ → System env → System env) (s : System env)
      → stops (n + k) ≡ true
      → (r : Left) × (state_broadcast_worker (suc k) stops wakes others n s ≡ some r)
  unfolding state_broadcast_worker
  state_broadcast_worker_ends zero n stops wakes others s h =
      let now : n + zero ≡ n = omega arith in
      let e = subst (λ (m : ℕ). stops m ≡ true) now h in
      ((ok tt, told (stops n) s), if-true _ _ (told-flag (stops n) s e))
  state_broadcast_worker_ends (suc k) n stops wakes others s h =
      let here = told (stops n) s in
      let later : n + suc k ≡ suc n + k = omega arith in
      let r = broadcast_round env (told (wakes n) (others n here)) in
      elim (Bool-cases here.owner.states.stop_flag) [
        | inl e ↦ ((ok tt, here), if-true _ _ e)
        | inr e ↦
            let (q, p) =
              after_round_lem r.0 r.1
                (state_broadcast_worker (suc k) stops wakes others (suc n) r.1)
                (state_broadcast_worker_ends k (suc n) stops wakes others r.1
                  (subst (λ (m : ℕ). stops m ≡ true) later h)) in
            (q, if-false _ _ e ∙ p)
      ]

  -- Told to end during its wait, the thread sends nothing more and leaves at its next test.
  state_broadcast_worker_silent :
      (rounds n : ℕ) (stops wakes : ℕ → Bool) (others : ℕ → System env → System env)
      (s : System env)
      → wakes n ≡ true
      → (told (stops n) s).owner.states.stop_flag ≡ false
      → state_broadcast_worker (suc (suc rounds)) stops wakes others n s
        ≡ some (ok tt, stop (others n (told (stops n) s)))
  unfolding state_broadcast_worker broadcast_round stop
  state_broadcast_worker_silent rounds n stops wakes others s w f = ground arith
