-- ===== src/Tests/Locks.antt =====
-- The theorems on the lock of the interpreter beside a mutex, at concrete threads.
use mosaic_core.Base.{◌≢◌, refl, ◌++◌, [], ◌∷◌, some, none, Option, List}
use mosaic_core.Python.Gil.{Thread, python, network, signaling}
use mosaic_core.Python.Locks.{
  Lock, interpreter, mutex, Instruction, drop, Threads, Step, calls, takes, Reach, here, next,
  calls_of, set_state_call, logged_set_state_call, send_async_call, failed_send_call,
}
use mosaic_core.Python.Locks.Crossed.{entered, set_state_hangs, send_hangs}
use mosaic_core.Log.{info}

-- The thread that runs Python has the lock of the interpreter.
abbrev python_has : Lock → Option Thread
python_has interpreter = some python
python_has mutex = none

-- Python sets the state, and so does the observer, with a logger of Python.
abbrev both_set : Thread → List Instruction
both_set python = calls_of 1 ++ set_state_call
both_set signaling = logged_set_state_call info ++ []
both_set _ = []

-- The observer comes first.
abbrev both : Threads
both = record { owner = python_has; left = both_set }

abbrev python_next : (t : Threads) × Reach (entered signaling both) t
python_next = (_, next here (calls python _ refl))

set_state_hangs_example :
    Step both (entered signaling both)
    × (python_next.0.left python ≢ [])
    × (python_next.0.left signaling ≢ [])
set_state_hangs_example =
    set_state_hangs info signaling 1 [] [] refl refl refl refl refl refl python_next.1

-- Python sends, and an earlier send has failed.
abbrev sends : Thread → List Instruction
sends python = send_async_call
sends network = failed_send_call info
sends _ = []

abbrev failed_first : (t : Threads) × Reach (record { owner = python_has; left = sends }) t
failed_first = (_, next here (takes network mutex _ refl refl))

no_send_returns : (failed_first.0.left python ≢ []) × (failed_first.0.left network ≢ [])
no_send_returns =
    send_hangs info 0 1 [] (calls_of 1 ++ (drop mutex ∷ [])) {s = failed_first.0} refl refl refl
      refl refl here
