-- ===== src/Ai.antt =====
-- internal/ai/meter.go: the meter that every call of a model passes.
pub mod Meter
pub mod Spend
