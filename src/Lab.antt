-- ===== src/Lab.antt =====
-- The strategy lab under src/lab/: the state machine of promotion.
pub mod Texts
pub mod Sealed
pub mod Promotion
pub mod WalkForward
mod Examples
