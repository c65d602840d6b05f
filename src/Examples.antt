-- ===== src/Examples.antt =====
-- Concrete databases, schedulers and runs, on which the program is evaluated and its theorems hold.
pub mod Samples
mod Storage
mod Scheduling
mod Providing
mod Researching
mod Recording
mod Asking
