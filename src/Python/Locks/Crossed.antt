-- ===== src/Python/Locks/Crossed.antt =====
-- A mutex under which the program logs, beside a logger of Python: `SetState` of
-- src/core/connector_state_manager.cpp and `SendAsync` of
-- src/handlers/data_channel/data_channel_handler.cpp, on the thread that runs Python and on another.
use mosaic_core.Base.{
  ℕ, zero, suc, ◌++◌, ◌≡◌, ◌≢◌, refl, sym, ap, subst, List, [], ◌∷◌, some, none, arith, Bool, true,
  false,
}
use mosaic_core.Log.{LogLevel, info, error}
use mosaic_core.Python.Gil.{Thread, same_thread, python, network, lets_through}
use mosaic_core.Python.Locks.{
  Lock, interpreter, mutex, same_lock, Instruction, call, take, drop, Threads, Step, calls, takes,
  drops, Reach, here, next, go_on, give, calls_of, python_log, set_state_call,
  logged_set_state_call, send_async_call,
}

-- It takes this lock before it drops any.
abbrev wants : Lock → List Instruction → Bool
wants l [] = false
wants l (call ∷ rest) = wants l rest
wants l (take k ∷ rest) = same_lock l k
wants l (drop k ∷ rest) = false

-- Python has the lock of the interpreter and wants the mutex, which `u` has, and the other way round.
record Crossed (u : Thread) (s : Threads) : Type 0 where
  other : same_thread python u ≡ false
  of_python : s.owner interpreter ≡ some python
  of_other : s.owner mutex ≡ some u
  python_wants : wants mutex (s.left python) ≡ true
  other_wants : wants interpreter (s.left u) ≡ true

Crossed-Step : (u : Thread) {s t : Threads} → Step s t → Crossed u s → Crossed u t
Crossed-Step u (calls v rest e) c = ground arith
Crossed-Step u (takes v l rest e free) c = ground arith
Crossed-Step u (drops v l rest e h) c = ground arith

Crossed-Reach : (u : Thread) {s t : Threads} → Reach s t → Crossed u s → Crossed u t
Crossed-Reach u here c = c
Crossed-Reach u (next r st) c = Crossed-Step u st (Crossed-Reach u r c)

hangs :
    (u : Thread) {s s' : Threads}
    → Crossed u s
    → Reach s s'
    → (s'.left python ≢ []) × (s'.left u ≢ [])
hangs u c r =
    let k = Crossed-Reach u r c in
    (λ e. ground (arith, k.python_wants), λ e. ground (arith, k.other_wants))

wants-calls_of :
    (l : Lock) (n : ℕ) (rest : List Instruction) → wants l (calls_of n ++ rest) ≡ wants l rest
wants-calls_of l zero rest = refl
wants-calls_of l (suc n) rest = wants-calls_of l n rest

abbrev behind : List Instruction → List Instruction
behind [] = []
behind (i ∷ rest) = rest

-- `u` has taken the mutex.
abbrev pub entered : Thread → Threads → Threads
entered u s = record {
  owner = give mutex (some u) s.owner;
  left = go_on u (behind (s.left u)) s.left;
}

entered-Crossed :
    (set : LogLevel) (u : Thread) (n : ℕ) (after later : List Instruction) (s : Threads)
    → lets_through set info ≡ true
    → same_thread python u ≡ false
    → s.owner interpreter ≡ some python
    → s.left python ≡ calls_of n ++ (set_state_call ++ after)
    → s.left u ≡ logged_set_state_call set ++ later
    → Crossed u (entered u s)
entered-Crossed set u n after later s e o h p w =
    let wanted = wants-calls_of mutex n (set_state_call ++ after) in
    record {
      other = o;
      of_python = h;
      of_other = refl;
      python_wants = ground arith;
      other_wants = ground arith;
    }

enters :
    (u : Thread) (s : Threads) (rest : List Instruction)
    → s.left u ≡ take mutex ∷ rest
    → s.owner mutex ≡ none
    → Step s (entered u s)
enters u s rest w free =
    subst (λ is. Step s (record { owner = give mutex (some u) s.owner; left = go_on u is s.left }))
      (sym (ap behind w)) (takes u mutex rest w free)

-- A thread that runs Python, keeps the lock of the interpreter and is on its way to `SetState`, as in
-- `shutting_down`, never returns if another thread enters its own `SetState` before it: with a logger
-- of Python, a log level that lets INFO through and an offline client, that thread can take the free
-- mutex, and from then on neither ends, however the threads are scheduled.
pub set_state_hangs :
    (set : LogLevel) (u : Thread) (n : ℕ) (after later : List Instruction) {s s' : Threads}
    → lets_through set info ≡ true
    → same_thread python u ≡ false
    → s.owner interpreter ≡ some python
    → s.owner mutex ≡ none
    → s.left python ≡ calls_of n ++ (set_state_call ++ after)
    → s.left u ≡ logged_set_state_call set ++ later
    → Reach (entered u s) s'
    → Step s (entered u s) × (s'.left python ≢ []) × (s'.left u ≢ [])
set_state_hangs set u n after later {s} e o h free p w r =
    let (stuck, also) = hangs u (entered-Crossed set u n after later s e o h p w) r in
    (enters u s _ w free, stuck, also)

-- An asynchronous send of Python never returns if the network thread is in the callback of a send of
-- the same handler, has the mutex of its queue and is on its way to a log of an error, which a logger
-- of Python writes: neither ends, however the threads are scheduled.
pub send_hangs :
    (set : LogLevel) (n m : ℕ) (after later : List Instruction) {s s' : Threads}
    → lets_through set error ≡ true
    → s.owner interpreter ≡ some python
    → s.left python ≡ calls_of n ++ (send_async_call ++ after)
    → s.owner mutex ≡ some network
    → s.left network ≡ calls_of m ++ (python_log set error ++ later)
    → Reach s s'
    → (s'.left python ≢ []) × (s'.left network ≢ [])
send_hangs set n m after later e h p k w r =
    hangs network
      (record {
        other = refl;
        of_python = h;
        of_other = k;
        python_wants = rw p (wants-calls_of mutex n (send_async_call ++ after));
        other_wants =
            rw w (rw (wants-calls_of interpreter m (python_log set error ++ later)) (rw e refl));
      })
      r
