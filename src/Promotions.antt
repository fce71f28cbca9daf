-- ===== src/Promotions.antt =====
-- Promotion tracks and the promotions of artifacts: backend/src/promotions.rs.
pub mod Train
pub mod Posture
pub mod Verdicts
pub mod Signals
pub mod Schedule
pub mod Admission
pub mod Places
