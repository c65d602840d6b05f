-- ===== src/Scheduler.antt =====
-- src/research_engine/platform/scheduler.py: jobs are submitted, paused, resumed, cancelled,
-- recovered after a restart, and moved forward by what has become of their tasks.
pub mod State
pub mod Control
pub mod Recovery
pub mod Advance
pub mod Worker
pub mod Stable
pub mod Turns
pub mod Safety
pub mod Cancelling
pub mod Pausing
pub mod Execution
pub mod Reclaiming
pub mod Recovering
pub mod JobTable
pub mod Views
pub mod Requests
