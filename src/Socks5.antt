-- ===== src/Socks5.antt =====
-- The package socks5: which connections are taken, where they are sent, and when they are cut.
mod Examples
pub mod Server
pub mod Idle
