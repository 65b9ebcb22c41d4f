-- ===== src/Python/Locks.antt =====
-- Two locks at once: that of the Python interpreter, and a mutex under which the program logs:
-- `mutex_` of src/core/connector_state_manager.cpp, and `queue_mutex_` of
-- src/handlers/data_channel/data_channel_handler.cpp. `LOG` of a logger of Python
-- (python/bindings/bind_logging.cpp) takes the lock of the interpreter.
pub mod Crossed
use mosaic_core.Base.{
  ℕ, zero, suc, ◌≡◌, Bool, true, false, List, [], ◌∷◌, ◌++◌, Option, none, some, if◌then◌else◌,
}
use mosaic_core.Log.{LogLevel, info, error}
use mosaic_core.Python.Gil.{Thread, same_thread, lets_through}

pub data Lock : Type 0 where
  interpreter mutex : Lock

abbrev pub same_lock : Lock → Lock → Bool
same_lock interpreter interpreter = true
same_lock mutex mutex = true
same_lock _ _ = false

-- What a thread does next. A `call` keeps the locks that the thread has. A lock that is taken, by the thread
-- itself too, is waited for.
pub data Instruction : Type 0 where
  call : Instruction
  take drop : Lock → Instruction

pub record Threads : Type 0 where
  pub owner : Lock → Option Thread
  pub left : Thread → List Instruction

abbrev pub go_on :
    Thread → List Instruction → (Thread → List Instruction) → Thread → List Instruction
go_on t rest left u = if same_thread t u then rest else left u

abbrev pub give : Lock → Option Thread → (Lock → Option Thread) → Lock → Option Thread
give l o owner k = if same_lock l k then o else owner k

pub data Step (s : Threads) : Threads → Type 0 where
  calls :
      (t : Thread) (rest : List Instruction)
      → s.left t ≡ call ∷ rest
      → Step s (record s { left = go_on t rest s.left })
  takes :
      (t : Thread) (l : Lock) (rest : List Instruction)
      → s.left t ≡ take l ∷ rest
      → s.owner l ≡ none
      → Step s (record { owner = give l (some t) s.owner; left = go_on t rest s.left })
  drops :
      (t : Thread) (l : Lock) (rest : List Instruction)
      → s.left t ≡ drop l ∷ rest
      → s.owner l ≡ some t
      → Step s (record { owner = give l none s.owner; left = go_on t rest s.left })

pub data Reach (s : Threads) : Threads → Type 0 where
  here : Reach s s
  next : {t u : Threads} → Reach s t → Step t u → Reach s u

abbrev pub calls_of : ℕ → List Instruction
calls_of zero = []
calls_of (suc n) = call ∷ calls_of n

-- A log with a logger of Python, on a thread that has not the lock of the interpreter: its method
-- `log` under that lock, if the level is high enough.
abbrev pub python_log : LogLevel → LogLevel → List Instruction
python_log set level =
    if lets_through set level then take interpreter ∷ call ∷ drop interpreter ∷ [] else []

-- `SetState` while the client is offline, where `LOG` is a call: `LogState`, the state, and
-- `SendState`, which keeps the state and sends nothing.
abbrev pub set_state_call : List Instruction
set_state_call = take mutex ∷ calls_of 3 ++ (drop mutex ∷ [])

-- The same on a thread without the lock of the interpreter, with a logger of Python.
abbrev pub logged_set_state_call : LogLevel → List Instruction
logged_set_state_call set = take mutex ∷ python_log set info ++ (call ∷ call ∷ drop mutex ∷ [])

-- `SendAsync` of the data channel handler, where `LOG` is a call: the buffer is pushed, and
-- `ProcessQueue` takes the front.
abbrev pub send_async_call : List Instruction
send_async_call = take mutex ∷ call ∷ call ∷ drop mutex ∷ []

-- The callback of a send that failed, with a logger of Python: the flag, the log, and `ProcessQueue`
-- on an empty queue.
abbrev pub failed_send_call : LogLevel → List Instruction
failed_send_call set = take mutex ∷ call ∷ python_log set error ++ (call ∷ drop mutex ∷ [])
