-- ===== src/Circuit.antt =====
-- internal/circuit/breaker.go: the per-replica circuit breakers.
pub mod Window
pub mod Breaker
pub mod Registry
