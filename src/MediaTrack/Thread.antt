-- ===== src/MediaTrack/Thread.antt =====
-- src/auto_configurer/impl/opencv_camera_mt_handler.cpp: the thread that `Start` makes, up to the `join` of
-- `Stop`.
use mosaic_core.Base.{
  String, ℕ, zero, suc, ◌+◌, ◌≡◌, ◌∙◌, Bool, true, false, Option, none, some, arith, if◌then◌else◌,
  if-true, if-false, Bool-cases, inl, inr, false≢true, subst,
}
use mosaic_core.MediaTrack.{Track, get_stop_flag, set_stop_flag, send_frame, on_recordable}
use mosaic_core.MediaTrack.Camera.{Capture, round, frame_loop}

module _ {Fps Frame : Type 0} where
  -- `Stop` has come by the test before the round.
  abbrev told : Bool → Track Capture Fps Frame → Track Capture Fps Frame
  told true t = (set_stop_flag true t).1
  told false t = t

  -- The loop from round `n` on: `stops n` says that `Stop` sets the flag before the test of round
  -- `n`, and `reads n` is what the device gives in it. `none` is that the rounds did not do. A round that
  -- ends the process is not told from one that returns.
  unfoldable pub thread :
      (String → Bool)
      → ℕ
      → (ℕ → Bool)
      → (ℕ → Option Frame)
      → ℕ
      → Track Capture Fps Frame
      → Option (Track Capture Fps Frame)
  unfolding set_stop_flag get_stop_flag round
  thread is_opencv zero stops reads n t = none
  thread is_opencv (suc rounds) stops reads n t =
      let here = told (stops n) t in
      let rest = thread is_opencv rounds stops reads (suc n) (round is_opencv (reads n) here).1 in
      if get_stop_flag here then some here else rest

  abbrev pub has_source : Track Capture Fps Frame → Bool
  has_source t = elim t.source [ none ↦ false | some s ↦ true ]

  has_source-round :
      (is_opencv : String → Bool) (read : Option Frame) (t : Track Capture Fps Frame)
      → has_source t ≡ true
      → has_source (round is_opencv read t).1 ≡ true
  unfolding round frame_loop send_frame on_recordable
  has_source-round is_opencv none t h = ground arith
  has_source-round is_opencv (some f) t h = ground arith

  has_source-told :
      (b : Bool) (t : Track Capture Fps Frame) → has_source t ≡ true → has_source (told b t) ≡ true
  unfolding set_stop_flag
  has_source-told true t h = ground arith
  has_source-told false t h = h

  flagged :
      (b : Bool) (t : Track Capture Fps Frame)
      → b ≡ true
      → has_source t ≡ true
      → get_stop_flag (told b t) ≡ true
  unfolding set_stop_flag get_stop_flag
  flagged true t e h = ground arith
  flagged false t e h = absurd (false≢true e)

  -- A thread of a track with a source, which `Stop` tells to end before round `n + k`, ends by that
  -- round: `k + 1` tests are enough, whatever the device gives, and it leaves with the flag set. So the
  -- `join` of `Stop` returns.
  pub thread_ends :
      (is_opencv : String → Bool) (k n : ℕ) (stops : ℕ → Bool) (reads : ℕ → Option Frame)
      (t : Track Capture Fps Frame)
      → has_source t ≡ true
      → stops (n + k) ≡ true
      → (t' : Track Capture Fps Frame) × (thread is_opencv (suc k) stops reads n t ≡ some t')
        × (get_stop_flag t' ≡ true)
  unfolding thread
  thread_ends is_opencv zero n stops reads t h s =
      let now : n + zero ≡ n = omega arith in
      let stop = flagged (stops n) t (subst (λ (m : ℕ). stops m ≡ true) now s) h in
      (told (stops n) t, if-true (some (told (stops n) t)) none stop, stop)
  thread_ends is_opencv (suc k) n stops reads t h s =
      let here = told (stops n) t in
      let later : n + suc k ≡ suc n + k = omega arith in
      elim (Bool-cases (get_stop_flag here)) [
        | inl e ↦ (here, if-true (some here) _ e, e)
        | inr e ↦
            let (t', q, f) =
              thread_ends is_opencv k (suc n) stops reads (round is_opencv (reads n) here).1
                (has_source-round is_opencv (reads n) here (has_source-told (stops n) t h))
                (subst (λ (m : ℕ). stops m ≡ true) later s) in
            (t', if-false (some here) _ e ∙ q, f)
      ]
