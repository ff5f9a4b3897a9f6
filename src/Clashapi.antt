-- ===== src/Clashapi.antt =====
-- clashapi: the API of the dashboard.
mod Examples
pub mod Auth
pub mod Connections
pub mod Traffic
pub mod Logs
pub mod Proxies
pub mod Handlers
pub mod Server
