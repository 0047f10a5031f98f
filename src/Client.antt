-- ===== src/Client.antt =====
-- main/main.c: the client's tasks.
pub mod Dac
pub mod Flac
pub mod Handlers
pub mod Greet
pub mod TimeSync
