-- ===== src/Health.antt =====
-- The package health: a tracker of round trips and errors, a probe that feeds it, and the HTTP
-- handlers that show it.
mod Examples
pub mod State
pub mod Percentile
pub mod Tracker
pub mod Probe
