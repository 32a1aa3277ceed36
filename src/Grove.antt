-- ===== src/Grove.antt =====
-- The code graph of grove.
pub mod Data
pub mod Graph
pub mod EdgeIndex
pub mod Patterns
pub mod Inheritance
pub mod Edges
pub mod Impact
pub mod Coverage
pub mod Regions
