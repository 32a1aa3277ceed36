-- ===== src/Fuse.antt =====
-- The merge driver under fuse/internal/merge.
pub mod Data
pub mod Line
pub mod ThreeWay
pub mod Floats
pub mod Symbols
pub mod Imports
pub mod Classify
pub mod Config
pub mod Breaking
pub mod Reconstruct
pub mod Orchestrator
