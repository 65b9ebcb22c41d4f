-- ===== src/Python.antt =====
-- src/python/bindings: the module that a Python program imports.
pub mod Json
pub mod Receive
pub mod Frames
pub mod Configurers
pub mod Gil
pub mod Locks
pub mod Tracks
