-- ===== src/Python/Gil/Deadlock.antt =====
-- `shutting_down` of python/bindings/bind_core.cpp beside a message for a Python receivable.
use mosaic_core.Base.{
  ℕ, zero, suc, ◌++◌, ◌≡◌, ◌≢◌, refl, List, [], ◌∷◌, some, arith, Bool, true, false, if◌then◌else◌,
}
use mosaic_core.Python.Gil.{
  Thread, same_thread, python, Instruction, call, acquire, release, stop, Threads, Step, calls,
  acquires, releases, stops, Reach, here, next, calls_of,
}

-- It waits for `u` before it lets go of the lock.
abbrev pub waits_for : Thread → List Instruction → Bool
waits_for u [] = false
waits_for u (call ∷ rest) = waits_for u rest
waits_for u (acquire ∷ rest) = false
waits_for u (release ∷ rest) = false
waits_for u (stop v ∷ rest) =
    let later = waits_for u rest in if same_thread v u then true else later

-- It needs the lock before it ends or waits.
abbrev pub needs_lock : List Instruction → Bool
needs_lock [] = false
needs_lock (call ∷ rest) = needs_lock rest
needs_lock (acquire ∷ rest) = true
needs_lock (release ∷ rest) = false
needs_lock (stop _ ∷ rest) = false

-- Python has the lock and waits for `u`, which needs it.
record Locked (u : Thread) (s : Threads) : Type 0 where
  other : same_thread python u ≡ false
  held : s.holder ≡ some python
  waiting : waits_for u (s.left python) ≡ true
  needing : needs_lock (s.left u) ≡ true

Locked-Step : (u : Thread) {s t : Threads} → Step s t → Locked u s → Locked u t
Locked-Step u (calls v rest e) l = ground arith
Locked-Step u (acquires t rest e free) l = ground arith
Locked-Step u (releases t rest e h) l = ground arith
Locked-Step u (stops v w rest e h) l = ground arith

Locked-Reach : (u : Thread) {s t : Threads} → Reach s t → Locked u s → Locked u t
Locked-Reach u here l = l
Locked-Reach u (next r st) l = Locked-Step u st (Locked-Reach u r l)

-- A thread that keeps the lock and waits for one that needs it: neither ends.
pub hangs :
    (u : Thread) {s s' : Threads}
    → same_thread python u ≡ false
    → s.holder ≡ some python
    → waits_for u (s.left python) ≡ true
    → needs_lock (s.left u) ≡ true
    → Reach s s'
    → (s'.left python ≢ []) × (s'.left u ≢ [])
hangs u {s} {s'} o h w n r =
    let l = Locked-Reach u r (record { other = o; held = h; waiting = w; needing = n }) in
    (λ e. ground (arith, l.waiting), λ e. ground (arith, l.needing))

pub waits_for-calls_of :
    (u : Thread) (n : ℕ) (rest : List Instruction)
    → waits_for u (calls_of n ++ rest) ≡ waits_for u rest
waits_for-calls_of u zero rest = refl
waits_for-calls_of u (suc n) rest = waits_for-calls_of u n rest

pub needs_lock-calls_of :
    (n : ℕ) (rest : List Instruction) → needs_lock (calls_of n ++ rest) ≡ needs_lock rest
needs_lock-calls_of zero rest = refl
needs_lock-calls_of (suc n) rest = needs_lock-calls_of n rest
