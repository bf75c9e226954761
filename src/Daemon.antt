-- ===== src/Daemon.antt =====
-- daemon.py: the TCP handshake, the auth window and the unlocking of sessions.
pub mod Reader
pub mod Hello
pub mod Tcp
pub mod Sessions
pub mod Unlock
pub mod Window
pub mod Interleave
pub mod Legacy
pub mod Start
pub mod Discovery
pub mod Boot
pub mod Resources
