-- ===== src/HsTable.antt =====
-- storage/hstable_manager.h: how HSTables are written, loaded and recovered.
pub mod OffsetArray
pub mod Recovery
pub mod Writer
mod Runs
