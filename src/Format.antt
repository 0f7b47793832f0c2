-- ===== src/Format.antt =====
-- storage/format.h: how entries, options, headers and footers lie in a HSTable.
pub mod Filetype
pub mod Checksums
pub mod Entry
pub mod Footer
pub mod OptionEncoder
pub mod Header
pub mod Row
mod Runs
