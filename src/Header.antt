-- ===== src/Header.antt =====
-- Object headers, src/jelatine/header.h. A header is a word of 64 bits: the address of a class, or
-- the size of a C object, with the Java object bit and the mark bit in the two lowest bits.
pub mod Parts
use jelatine.Common.{ℕ, ◌+◌, ◌-◌, ◌*◌, ◌/◌, ◌%◌, ◌^◌, bit_and, bit_or, Bool, ◌==◌}

abbrev pub header_reserved : ℕ
header_reserved = 2

abbrev pub header_mark_shift : ℕ
header_mark_shift = 0

abbrev pub header_java_object_shift : ℕ
header_java_object_shift = 1

-- `~(((uintptr_t) 1 << HEADER_RESERVED) - 1)`
abbrev pub header_pcp_mask : ℕ
header_pcp_mask = 2 ^ 64 - 1 - (2 ^ header_reserved - 1)

unfoldable pub is_object : ℕ → Bool
is_object header = bit_and (header / 2 ^ header_java_object_shift) 1 == 1

unfoldable pub create_object : ℕ → ℕ
create_object cl = bit_or cl (2 ^ header_java_object_shift)

unfoldable pub create_c : ℕ → ℕ
create_c size = bit_or size (2 ^ header_mark_shift)

unfoldable pub get_class : ℕ → ℕ
get_class header = bit_and header header_pcp_mask

unfoldable pub get_size : ℕ → ℕ
get_size header = bit_and header header_pcp_mask

unfoldable pub is_marked : ℕ → Bool
is_marked header = bit_and (header / 2 ^ header_mark_shift) 1 == 1

unfoldable pub set_mark : ℕ → ℕ
set_mark header = bit_or header (2 ^ header_mark_shift)

-- `header & ~((uintptr_t) 1 << HEADER_MARK_SHIFT)`
unfoldable pub clear_mark : ℕ → ℕ
clear_mark header = bit_and header (2 ^ 64 - 1 - 2 ^ header_mark_shift)
