-- ===== src/Ssh.antt =====
-- The package sshclient: one SSH connection, kept up by a supervisor.
mod Examples
pub mod Manager
pub mod Supervisor
pub mod Race
pub mod Probing
