-- ===== src/Interface.antt =====
-- sce_interface.c: the calls that the rest of the driver makes of the cache engine.
pub mod Config
pub mod Io
pub mod Task
pub mod Runs
