-- ===== src/PlatformDb.antt =====
-- src/research_engine/storage/platform_db.py: the platform database, a module per group of
-- operations. `Rows` has the tables; each operation takes a database and gives the next one.
pub mod Rows
pub mod Jobs
pub mod Tasks
pub mod Claim
pub mod Ownership
pub mod Selection
pub mod Soundness
pub mod Fencing
pub mod History
pub mod Rejection
pub mod Finishing
pub mod Caps
pub mod Settled
pub mod Divergence
pub mod Absorbing
