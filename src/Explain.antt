-- ===== src/Explain.antt =====
-- Explanations in prose (internal/explain).
pub mod Packet
pub mod Narrator
