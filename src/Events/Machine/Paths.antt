-- ===== src/Events/Machine/Paths.antt =====
-- The moves of `ClosePeerConnection` and `HandleSdpOffer` of src/core/peer_connection_manager.cpp, on every
-- outcome.
use mosaic_core.Base.{
  ap, ◌≡◌, refl, Bool, true, false, Bool-cases, inl, inr, ◌||◌, arith, if◌then◌else◌,
}
use mosaic_core.Exec.{
  Outcome, ok, throws, fault, Exec, catch, when, gets, pure, modify, continue, ◌>>=◌,
}
use mosaic_core.Exec.Keeps.{Keeps, keeps_rules, Keeps-when}
use mosaic_core.Env.{Env, Call, set_remote_description}
use mosaic_core.System.{
  System, put_peer, PeerConnectionManager, State, initializing, ready_to_connect, rtc_connecting,
  rtc_connected, rtc_disconnecting, rtc_failed, disconnected,
}
use mosaic_core.StateManager.{state_of, set_state, is_state, same_state}
use mosaic_core.PeerConnection.{
  release_connection, close_peer_connection, accept_offer, open_peer_connection,
  on_connection_connected, on_connection_disconnected,
}
use mosaic_core.PeerConnection
use mosaic_core.PeerConnection.Loop.{Keeps-for_each}
use mosaic_core.PeerConnection.Tracks.{
  with_track, with_channel, log_call, close_all_media_tracks, close_all_data_channels,
}
use mosaic_core.StateManager.Report.{set_state-SetTo}
use mosaic_core.Events.Machine.{
  Move, Moves, next, accepts, opens, fails, hangs_up, disconnects, releases, finishes,
}

same_state-eq : (m n : State) → same_state m n ≡ true → m ≡ n
same_state-eq m n h = ground arith

-- What holds behind the parts of an action, outcome by outcome, holds behind it.
module _ {S A B : Type 0} (P : S → Type 0) where
  bind_at :
      (m : Exec S A) (k : A → Exec S B) (s : S)
      → P (m s).1
      → ((a : A) → P (k a (m s).1).1)
      → P ((m >>= k) s).1
  unfolding ◌>>=◌
  bind_at m k s one rest = go (m s).0
    where
      go : (o : Outcome A) → P (continue o k (m s).1).1
      go (ok a) = rest a
      go (throws e) = one
      go fault = one

module _ (env : Env) (n₀ : State) (has₀ : Bool) where
  abbrev pub has_connection : System env → Bool
  has_connection s = s.owner.peer.has_peer_connection

  -- The machine has come from `n₀` and `has₀` to the state of `s`.
  abbrev pub Reached : System env → Type 0
  Reached s = Moves n₀ has₀ (state_of env s) (has_connection s)

  pub set_state_has :
      (n : State) (s : System env) → has_connection (set_state env n s).1 ≡ has_connection s
  set_state_has n s =
      ap (λ (p : PeerConnectionManager env). p.has_peer_connection) (set_state-SetTo env n s).peer

  Reached-set_state :
      (n : State) (s : System env)
      → Reached s
      → Move (state_of env s) (has_connection s) n (has_connection s)
      → Reached (set_state env n s).1
  Reached-set_state n s c m = rw (set_state-SetTo env n s).state (rw (set_state_has n s) (next c m))

  -- It has come to a state in which it now waits.
  abbrev In : State → System env → Type 0
  In n s = (state_of env s ≡ n) × Reached s

  In-log_call : (n : State) (c : Call env.rtc.Sdp env.rtc.Candidate) → Keeps (In n) (log_call env c)
  unfolding log_call modify
  In-log_call n c = record { at = λ s h. h }

  abbrev Closing : System env → Type 0
  Closing = In rtc_disconnecting

  Closing-close_all_media_tracks : Keeps Closing (close_all_media_tracks env)
  unfolding close_all_media_tracks with_track
  Closing-close_all_media_tracks = record {
    at = λ s.
        (Keeps-for_each env {P = Closing} (λ k t. with_track env k t env.tracks.close)
            (λ k t. record { at = λ s' h. h }) s.owner.connector.media_track_handlers).at
          s;
  }

  Closing-close_all_data_channels : Keeps Closing (close_all_data_channels env)
  unfolding close_all_data_channels with_channel
  Closing-close_all_data_channels = record {
    at = λ s.
        (Keeps-for_each env {P = Closing}
            (λ k t. with_channel env k t env.channels.close_data_channel)
            (λ k t. record { at = λ s' h. h }) s.owner.connector.data_channel_handlers).at
          s;
  }

  Closing-drop : Keeps Closing (modify (put_peer (λ p. record p { has_peer_connection = false })))
  unfolding modify
  Closing-drop = record { at = λ s h. (h.0, next h.1 (releases h.0)) }

  Closing-release_connection : Keeps Closing (release_connection env)
  unfolding release_connection
  Closing-release_connection =
      search
        (
          keeps_rules,
          Closing-close_all_media_tracks,
          Closing-close_all_data_channels,
          In-log_call rtc_disconnecting,
          Closing-drop,
        )
        depth 9

  closing_caught : Keeps Closing (catch (release_connection env) (λ e. pure tt))
  closing_caught = search (keeps_rules, Closing-release_connection)

  hang_up :
      (n : State)
      → (same_state n rtc_connected || same_state n rtc_connecting) ≡ true
      → (has : Bool) → Move n has rtc_disconnecting has
  hang_up rtc_connected h has = disconnects refl
  hang_up rtc_connecting h has = hangs_up refl
  hang_up initializing h has = cc
  hang_up ready_to_connect h has = cc
  hang_up rtc_disconnecting h has = cc
  hang_up rtc_failed h has = cc
  hang_up disconnected h has = cc

  Reached-active :
      (s : System env)
      → Closing s
      → Reached
          ((catch (release_connection env) (λ e. pure tt) >>= λ u. on_connection_disconnected env)
            s).1
  unfolding on_connection_disconnected
  Reached-active s h =
      let k = closing_caught.at s h in
      bind_at Reached (catch (release_connection env) (λ e. pure tt))
        (λ u. on_connection_disconnected env) s k.1
        (λ u.
          Reached-set_state ready_to_connect (catch (release_connection env) (λ e. pure tt) s).1 k.1
            (finishes k.0))

  pub Reached-close_peer_connection : Keeps Reached (close_peer_connection env)
  unfolding close_peer_connection ◌>>=◌ gets when
  Reached-close_peer_connection = record {
    at = λ s h. elim (Bool-cases (is_state env rtc_connected s || is_state env rtc_connecting s)) [
      | inl e ↦ rw e (
          let c₁ =
            Reached-set_state rtc_disconnecting s h
              (hang_up (state_of env s) e (has_connection s)) in
          bind_at Reached (set_state env rtc_disconnecting)
            (λ u.
              catch (release_connection env) (λ e. pure tt) >>= λ v. on_connection_disconnected env)
            s c₁
            (λ u.
              Reached-active (set_state env rtc_disconnecting s).1
                ((set_state-SetTo env rtc_disconnecting s).state, c₁)))
      | inr e ↦ rw e h
    ];
  }

  abbrev Connecting : System env → Type 0
  Connecting = In rtc_connecting

  Connecting-take :
      Keeps Connecting (modify (put_peer (λ p. record p { has_peer_connection = true })))
  unfolding modify
  Connecting-take = record { at = λ s h. (h.0, next h.1 (opens h.0)) }

  Connecting-observe : Keeps Connecting (modify (put_peer (λ p. record p { has_observer = true })))
  unfolding modify
  Connecting-observe = record { at = λ s h. h }

  Connecting-open_peer_connection : Keeps Connecting (open_peer_connection env)
  unfolding open_peer_connection
  Connecting-open_peer_connection =
      search (keeps_rules, In-log_call rtc_connecting, Connecting-take, Connecting-observe) depth 9

  -- The end of an accepted offer: it was handed over, or there is no connection.
  handed_over :
      (sdp : env.rtc.Sdp) (s : System env) (has : Bool)
      → Connecting s
      → has_connection s ≡ has
      → Reached
          ((if has then log_call env (set_remote_description sdp) else set_state env rtc_failed)
            s).1
  handed_over sdp s true h e = ((In-log_call rtc_connecting (set_remote_description sdp)).at s h).1
  handed_over sdp s false h e = Reached-set_state rtc_failed s h.1 (fails h.0 e)

  Reached-accept_offer :
      (sdp : env.rtc.Sdp) (s : System env)
      → In ready_to_connect s
      → Reached (accept_offer env sdp s).1
  unfolding accept_offer ◌>>=◌ gets
  Reached-accept_offer sdp s h =
      let c₁ = Reached-set_state rtc_connecting s h.1 (accepts h.0) in
      let s₁ = (set_state env rtc_connecting s).1 in
      let h₂ =
        Connecting-open_peer_connection.at s₁ ((set_state-SetTo env rtc_connecting s).state, c₁) in
      bind_at Reached (set_state env rtc_connecting) _ s c₁ (λ u.
        bind_at Reached (open_peer_connection env) _ s₁ h₂.1
          (λ v. handed_over sdp (open_peer_connection env s₁).1 _ h₂ refl))

  if_ready :
      (sdp : env.rtc.Sdp) (s : System env) (b : Bool)
      → Reached s
      → is_state env ready_to_connect s ≡ b
      → Reached (when b (accept_offer env sdp) s).1
  unfolding when pure
  if_ready sdp s true h e =
      Reached-accept_offer sdp s (same_state-eq (state_of env s) ready_to_connect e, h)
  if_ready sdp s false h e = h

  pub Reached-handle_sdp_offer :
      (sdp : env.rtc.Sdp) → Keeps Reached (PeerConnection.handle_sdp_offer env sdp)
  unfolding PeerConnection.handle_sdp_offer ◌>>=◌ gets
  Reached-handle_sdp_offer sdp = record {
    at = λ s h.
        let first = when (has_connection s) (close_peer_connection env) in
        let h₁ =
          (Keeps-when (has_connection s) (close_peer_connection env)
              Reached-close_peer_connection).at
            s h in
        bind_at Reached first _ s h₁ (λ u. if_ready sdp (first s).1 _ h₁ refl);
  }
