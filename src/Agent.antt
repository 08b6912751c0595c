-- ===== src/Agent.antt =====
-- internal/agent: the program that collects metrics and sends them.
pub mod Wiring
pub mod Client
pub mod Collector
pub mod Workers
