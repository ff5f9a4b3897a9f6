-- ===== src/Rules.antt =====
-- internal/rules: the rule engine, a file of it to a module.
mod Examples
pub mod Number
pub mod Matcher
pub mod Types
pub mod Geosite
pub mod Parser
pub mod Engine
pub mod Builder
