-- ===== src/Risk.antt =====
-- The risk domain: src/domain/risk/config.py, guards.py, sizing.py, stops.py and engine.py, a child
-- module each, with the proofs about them in the children named for what they prove.
pub mod Config
pub mod Guards
pub mod Sizing
pub mod Stops
pub mod Engine
pub mod Approval
pub mod Emergency
pub mod Trailing
mod Examples
