-- ===== src/Snapshot.antt =====
-- internal/data-structures/eventservice: the snapshot services behind the emitter.
pub mod Service
pub mod Nullifiers
pub mod Commitments
mod Tests
