-- ===== src/Tests.antt =====
-- Runs of the model at concrete inputs.
mod Setup
mod Handshakes
mod Protocols
mod Daemons
mod Configs
mod Commands
mod Shell
mod Windows
mod Discovery
