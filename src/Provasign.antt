-- ===== src/Provasign.antt =====
-- The certification service under provasign/internal.
pub mod Data
pub mod Policy
pub mod Engine
pub mod Gates
pub mod AnalysisGates
pub mod Lifecycle
pub mod Risk
pub mod DiffScope
pub mod Routing
