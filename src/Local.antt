-- ===== src/Local.antt =====
-- The local mode, as cmd/anti-bruteforce/main.go wires it: all the state in memory.
pub mod World
pub mod Limits
pub mod Chain
pub mod Attempts
pub mod Events
pub mod Trace
pub mod Bruteforce
pub mod Reload
pub mod Manage
pub mod Enforcement
pub mod Poison
