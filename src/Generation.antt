-- ===== src/Generation.antt =====
-- `generation.py`: the worker generations that the guardian starts, fences and retires, the
-- writer lease and the generation counter.
pub mod System
pub mod Machine
pub mod Network
pub mod Worker
pub mod Detached
pub mod Lease
pub mod Counter
pub mod Start
pub mod Entered
pub mod Waits
pub mod Resolvers
pub mod Example
mod Tests
