-- ===== src/Engine.antt =====
-- include/edgy/engine.hpp and src/edgy/engine.cpp: `Engine`. It takes a snapshot of the upstream node,
-- applies its stream of closes and transactions, and serves path requests on what it has applied.
pub mod Queue
pub mod Meta
pub mod Stream
pub mod Apply
pub mod Snapshot
pub mod Sessions
