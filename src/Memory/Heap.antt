-- ===== src/Memory/Heap.antt =====
-- The heap of src/jelatine/memory.c: `gc_init`, `gc_grow`, the permanent area of `gc_palloc`, and
-- the bitmap of object headers. Addresses are numbers below 2 ^ 64 and `sizeof(jword_t)` is 8.
-- The weak references and the finalizer lists are not part of the state here.
pub mod Bitmap
pub mod Layout
use jelatine.Common.{
  ℕ, ◌+◌, ◌-◌, ◌*◌, ◌/◌, ◌%◌, ◌^◌, Bool, true, false, Option, none, some, List, bit_and, bit_or,
  ltb, leb, ◌==◌, if◌then◌else◌, get_or, set, replicate,
}
use jelatine.Util.{size_ceil, size_floor}
use jelatine.Memory.Chunks.{Bins, no_chunks, put_chunk}

-- `struct heap_t`. The bitmap is the list of its bytes.
pub record Heap : Type 0 where
  pub collect : Bool
  pub size : ℕ
  pub max_size : ℕ
  pub start : ℕ
  pub end : ℕ
  pub perm : ℕ
  pub bitmap : List ℕ
  pub bins : Bins

abbrev pub heap_init_fraction : ℕ
heap_init_fraction = 16

-- The size that is allocated for `gc_init(size)`.
abbrev pub unified_size : ℕ → ℕ
unified_size size = size_ceil (if ltb size 32768 then 32768 else size) 8

-- `(size * sizeof(jword_t) * 8) / ((sizeof(jword_t) * 8) + 1)`, rounded down to whole words
abbrev pub usable_size : ℕ → ℕ
usable_size size = size_floor (size * 8 % 2 ^ 64 * 8 % 2 ^ 64 / 65) 8

-- `base` is the block that `malloc` returned.
pub init : ℕ → ℕ → Heap
init base size =
    let unified = unified_size size in
    let heap_size = usable_size unified in
    let init_size = size_ceil (heap_size / heap_init_fraction) 8 in
    record {
      collect = false;
      size = init_size;
      max_size = heap_size;
      start = base;
      end = base + init_size;
      perm = base + heap_size;
      bitmap = replicate (unified - heap_size) 0;
      bins = put_chunk base init_size no_chunks;
    }

unfoldable pub grow : ℕ → ℕ → Heap → Heap
grow end size h =
    let end' = if ltb h.perm ((h.end + size) % 2 ^ 64) then h.perm else (h.end + size) % 2 ^ 64 in
    record h { size = end' - h.start; end = end'; bins = put_chunk end (end' - end) h.bins }

-- `gc_palloc` up to where it falls back to `gc_malloc`, which is `none`. The memory that it clears is not
-- part of the state here.
unfoldable pub palloc : ℕ → Heap → Option (ℕ × Heap)
palloc size h =
    let size' = size_ceil size 8 in
    let perm' = (h.perm + 2 ^ 64 - size') % 2 ^ 64 in
    if size == 0
    then some (0, h)
    else if leb h.end perm'
    then some (perm', record h { perm = perm' })
    else none

abbrev pub bit_offset : ℕ → Heap → ℕ
bit_offset ptr h = (ptr - h.start) / 8

pub bitmap_set : ℕ → Heap → Heap
bitmap_set ptr h =
    let offset = bit_offset ptr h in
    let byte = get_or h.bitmap (offset / 2 ^ 3) 0 in
    record h { bitmap = set h.bitmap (offset / 2 ^ 3) (bit_or byte (2 ^ bit_and offset 7)) }

-- `~(1 << (offset & 0x7))`, of which the assignment to a byte keeps eight bits
unfoldable pub bitmap_clear : ℕ → Heap → Heap
bitmap_clear ptr h =
    let offset = bit_offset ptr h in
    let byte = get_or h.bitmap (offset / 2 ^ 3) 0 in
    record h { bitmap = set h.bitmap (offset / 2 ^ 3) (bit_and byte (255 - 2 ^ bit_and offset 7)) }

unfoldable pub bitmap_get : ℕ → Heap → Bool
bitmap_get ptr h =
    let offset = bit_offset ptr h in
    bit_and (get_or h.bitmap (offset / 2 ^ 3) 0 / 2 ^ bit_and offset 7) 1 == 1
