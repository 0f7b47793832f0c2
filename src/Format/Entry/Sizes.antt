-- ===== src/Format/Entry/Sizes.antt =====
-- AreSizesValid and CalculatePaddingSize: what the size checks of an entry say.
use kingdb.Prelude.{ℕ, ◌+◌, ◌*◌, ◌/◌, ◌%◌, ◌^◌, ◌≤◌, ◌<◌, ◌≡◌, ◌↔◌, arith, true}
use kingdb.Format.Entry.{EntryHeader, are_sizes_valid, size_value_offset, calculate_padding_size}

-- The end of an entry in its file, as a sum that does not wrap around.
abbrev pub entry_end : ℕ → EntryHeader → ℕ
entry_end offset_file h = offset_file + h.size_header_serialized + h.size_key + size_value_offset h

-- Where the sums fit their words, AreSizesValid says exactly that the key is not empty and that the
-- entry ends within the file.
pub are_sizes_valid_iff :
    (offset_file filesize : ℕ) (h : EntryHeader)
    → offset_file + h.size_header_serialized < 2 ^ 32
    → entry_end offset_file h < 2 ^ 64
    → (are_sizes_valid offset_file filesize h ≡ true)
      ↔ ((0 < h.size_key) × (entry_end offset_file h ≤ filesize))
are_sizes_valid_iff offset_file filesize h small fits = unfold are_sizes_valid in ground arith

-- The sum wraps around: an entry whose sizes add up to 2 ^ 64 and at most the size of the file more
-- passes AreSizesValid, though it ends behind the file.
pub are_sizes_valid_wraps :
    (offset_file filesize : ℕ) (h : EntryHeader)
    → offset_file + h.size_header_serialized < 2 ^ 32
    → 2 ^ 64 ≤ entry_end offset_file h
    → entry_end offset_file h ≤ 2 ^ 64 + filesize
    → filesize < 2 ^ 63
    → 0 < h.size_key
    → (are_sizes_valid offset_file filesize h ≡ true) × (filesize < entry_end offset_file h)
are_sizes_valid_wraps offset_file filesize h small wraps near file key =
    (unfold are_sizes_valid in ground arith, omega arith)

-- The padding leaves a frame header of 8 bytes for each frame of 64 KiB that the value fills or
-- begins, and none more.
pub calculate_padding_size_bounds :
    (size_value : ℕ)
    → size_value < 2 ^ 63
    → (size_value < calculate_padding_size size_value / 8 * 65536)
      × (calculate_padding_size size_value / 8 * 65536 ≤ size_value + 65536)
      × (calculate_padding_size size_value % 8 ≡ 0)
unfolding calculate_padding_size
calculate_padding_size_bounds size_value h = omega arith
