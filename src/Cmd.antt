-- ===== src/Cmd.antt =====
-- Package cmd: the commands.
pub mod Server
pub mod Stats
pub mod Root
pub mod Flags
