-- ===== src/Tests.antt =====
-- Runs on small tables, and the theorems at concrete data.
pub mod Inputs
pub mod Backup
pub mod Routes
pub mod Commands
pub mod Tables
pub mod Trees
pub mod Disk
pub mod Caches
pub mod Pipeline
pub mod Files
pub mod Serving
pub mod Goroutines
pub mod Walks
pub mod Nodes
