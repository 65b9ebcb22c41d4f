-- ===== src/Python/Gil.antt =====
-- The lock of the Python interpreter, where a thread of the program waits for another one:
-- `shutting_down` of python/bindings/bind_core.cpp stops the threads of WebRTC, one of which runs the
-- trampolines of python/bindings/bind_data_channel.cpp; `create` waits for a task of cpprestsdk, which
-- logs by that of python/bindings/bind_logging.cpp.
pub mod Deadlock
pub mod Connecting
use mosaic_core.Log.{LogLevel, info, value}
use mosaic_core.Base.{
  ℕ, zero, suc, ◌≡◌, Bool, true, false, List, [], ◌∷◌, ◌++◌, Option, none, some, leb, if◌then◌else◌,
}

-- The thread that runs Python, the three of `PeerConnectionManager::Impl`, and the pool that runs the
-- tasks of cpprestsdk.
pub data Thread : Type 0 where
  python network worker signaling pool : Thread

abbrev pub same_thread : Thread → Thread → Bool
same_thread python python = true
same_thread network network = true
same_thread worker worker = true
same_thread signaling signaling = true
same_thread pool pool = true
same_thread _ _ = false

-- What a thread does next: `acquire` and `release` are `gil_scoped_acquire` and its end, or the other
-- way round `gil_scoped_release`; `stop` is `rtc::Thread::Stop`, or the `wait` for a task, which waits
-- until what the thread is at has ended; `call` is all else.
pub data Instruction : Type 0 where
  call acquire release : Instruction
  stop : Thread → Instruction

-- `holder` has the lock of the interpreter.
pub record Threads : Type 0 where
  pub holder : Option Thread
  pub left : Thread → List Instruction

abbrev pub go_on :
    Thread → List Instruction → (Thread → List Instruction) → Thread → List Instruction
go_on t rest left u = if same_thread t u then rest else left u

pub data Step (s : Threads) : Threads → Type 0 where
  calls :
      (t : Thread) (rest : List Instruction)
      → s.left t ≡ call ∷ rest
      → Step s (record s { left = go_on t rest s.left })
  acquires :
      (t : Thread) (rest : List Instruction)
      → s.left t ≡ acquire ∷ rest
      → s.holder ≡ none
      → Step s (record { holder = some t; left = go_on t rest s.left })
  releases :
      (t : Thread) (rest : List Instruction)
      → s.left t ≡ release ∷ rest
      → s.holder ≡ some t
      → Step s (record { holder = none; left = go_on t rest s.left })
  stops :
      (t u : Thread) (rest : List Instruction)
      → s.left t ≡ stop u ∷ rest
      → s.left u ≡ []
      → Step s (record s { left = go_on t rest s.left })

pub data Reach (s : Threads) : Threads → Type 0 where
  here : Reach s s
  next : {t u : Threads} → Reach s t → Step t u → Reach s u

-- The end of `DestroyPeerConnectionManager`.
abbrev pub destroy_threads : List Instruction
destroy_threads = stop network ∷ stop worker ∷ stop signaling ∷ []

-- As many calls, one after another.
abbrev pub calls_of : ℕ → List Instruction
calls_of zero = []
calls_of (suc n) = call ∷ calls_of n

-- `HandleData` of the three trampolines: the method of the Python class under the lock.
abbrev pub trampoline : List Instruction
trampoline = acquire ∷ call ∷ release ∷ []

-- `OnMessage` of a receivable of Python: the conversion, then the trampoline.
abbrev pub python_message : List Instruction
python_message = calls_of 1 ++ trampoline

-- The test that comes before `LOG`, as in `LOG_INFO`, with what `set_log_level` was given.
abbrev pub lets_through : LogLevel → LogLevel → Bool
lets_through set level = leb (value set) (value level)

-- A log with a logger of Python: its method `log` under the lock, if the level is high enough.
abbrev pub log_call : LogLevel → LogLevel → List Instruction
log_call set level = if lets_through set level then acquire ∷ call ∷ release ∷ [] else []

-- `OnConnected` of the signaling client on a first connection, which has no state to report: the log,
-- and the flag.
abbrev pub on_connected_call : LogLevel → List Instruction
on_connected_call set = log_call set info ++ call ∷ []

-- What the pool does when the socket is open: the flag, the log, and `OnConnected`.
abbrev pub connected_task : LogLevel → List Instruction
connected_task set = call ∷ log_call set info ++ on_connected_call set

-- `connectInternal` on a thread that has the lock, for which `LOG` is a call: the client, its
-- handlers, and the wait for the task.
abbrev pub connect_internal_call : List Instruction
connect_internal_call = call ∷ call ∷ stop pool ∷ []
