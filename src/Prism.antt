-- ===== src/Prism.antt =====
-- prism: context delivery. The tracker of what a session has delivered, and its ledger.
pub mod Tracker
pub mod Ledger
pub mod Budget
