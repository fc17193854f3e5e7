-- ===== src/Tests.antt =====
-- The theorems at concrete inputs.
mod Ledgers
mod Builders
mod Data
mod Graphs
mod Searches
mod Engines
mod Queues
mod Pools
mod Sessions
mod PathSessions
mod Services
mod Followers
