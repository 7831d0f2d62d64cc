-- ===== src/Tests.antt =====
-- The theorems at concrete inputs.
mod Sorting
mod Sample
mod Store
mod Claims
mod Rebuilds
mod Beliefs
mod Queues
mod Dispatching
mod Boards
mod Hosts
mod Utilities
mod Sessions
mod Blocks
mod Buses
mod Gates
