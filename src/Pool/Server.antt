-- ===== src/Pool/Server.antt =====
-- src/mnet_server.c: the accept loop of `mnet_run` and the workers, as interleaved steps on the state
-- that they share. A step is what a thread does between two points where others may run.
pub mod Defs
pub mod Steps
pub mod Safety
pub mod Sleepers
pub mod Shutdown
