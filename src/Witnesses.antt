-- ===== src/Witnesses.antt =====
-- The properties at concrete inputs, and runs of the code that can be followed by hand.
mod DiffScope
mod Fuse
mod Gates
mod Lifecycle
mod Merge
mod Prism
mod Provasign
mod Routing
mod Grove
