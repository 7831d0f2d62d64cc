-- ===== src/Jobs.antt =====
-- src/jobs: durable jobs. `PgJobStore` keeps the rows of two tables, and workers claim, renew and end
-- jobs under a lease that a claim version fences.
pub mod Types
pub mod Rows
pub mod Family
pub mod Enqueue
pub mod Fence
pub mod Claim
pub mod Sweep
pub mod Machine
pub mod Lifecycle
