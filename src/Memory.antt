-- ===== src/Memory.antt =====
-- The memory manager, src/jelatine/memory.c, for a target with 8-byte pointers and words.
pub mod Chunks
pub mod Heap
mod Tests
