-- ===== src/Client.antt =====
-- client/: the command line tool `renode` and the daemon that it starts.
pub mod Config
pub mod Commands
pub mod Daemon
pub mod Process
pub mod Foreground
pub mod Files
pub mod Samples
