-- ===== src/Python/Gil/Connecting.antt =====
-- `create` of python/bindings/bind_core.cpp, with a logger that is a Python class.
use mosaic_core.Base.{◌≡◌, ◌≢◌, refl, ◌++◌, [], some, ℕ, true, List}
use mosaic_core.Log.{LogLevel, info}
use mosaic_core.Python.Gil.{
  Instruction, python, pool, Threads, Reach, calls_of, lets_through, connected_task,
  connect_internal_call,
}
use mosaic_core.Python.Gil.Deadlock.{hangs, needs_lock, waits_for-calls_of, needs_lock-calls_of}

connected_task_lem :
    (set : LogLevel) → lets_through set info ≡ true → needs_lock (connected_task set) ≡ true
connected_task_lem set e = rw e refl

-- `create` of the factory, which keeps the lock of the interpreter while it waits for the socket,
-- never returns if the socket opens, the logger is one of Python and the log level lets INFO through,
-- as it does at the start: the task that has opened the socket waits for the lock to log so, and
-- neither ends, however the threads are scheduled and however far `create` has come before the wait.
pub create_hangs :
    (set : LogLevel) (n m : ℕ) (after : List Instruction) {s s' : Threads}
    → lets_through set info ≡ true
    → s.holder ≡ some python
    → s.left python ≡ calls_of n ++ (connect_internal_call ++ after)
    → s.left pool ≡ calls_of m ++ connected_task set
    → Reach s s'
    → (s'.left python ≢ []) × (s'.left pool ≢ [])
create_hangs set n m after e h p w r =
    hangs pool refl h (rw p (waits_for-calls_of pool n (connect_internal_call ++ after)))
      (rw w (rw (needs_lock-calls_of m (connected_task set)) (connected_task_lem set e))) r
