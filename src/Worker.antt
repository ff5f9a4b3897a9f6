-- ===== src/Worker.antt =====
-- main.go: a worker, and the program that runs several of them beside the API.
mod Examples
pub mod Pipeline
pub mod Startup
pub mod Program
