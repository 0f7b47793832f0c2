-- ===== src/Format/Filetype.antt =====
-- enum FileType of storage/format.h.
use kingdb.Prelude.{ℕ}

abbrev pub unknown_type : ℕ
unknown_type = 0x0

abbrev pub uncompacted_regular : ℕ
uncompacted_regular = 0x1

abbrev pub compacted_regular : ℕ
compacted_regular = 0x2

abbrev pub compacted_large : ℕ
compacted_large = 0x4
