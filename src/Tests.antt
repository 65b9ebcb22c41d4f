-- ===== src/Tests.antt =====
-- The theorems at concrete inputs: a network, a WebRTC and handlers that a small run can use.
pub mod Setup
pub mod Connections
pub mod Handlers
pub mod Interleavings
pub mod Locks
pub mod Sessions
pub mod Documents
pub mod Configurers
pub mod Bindings
pub mod Safety
pub mod Cameras
pub mod Threads
pub mod Lifetimes
