-- ===== src/Tests.antt =====
-- Concrete inputs, and the theorems applied to them.
pub mod Fixtures
pub mod Stores
pub mod Lists
pub mod Service
pub mod Edges
pub mod Attack
pub mod Rows
pub mod Buckets
pub mod Machines
pub mod Settings
pub mod Starts
pub mod Logs
pub mod Updates
pub mod Program
pub mod External
pub mod Goroutines
