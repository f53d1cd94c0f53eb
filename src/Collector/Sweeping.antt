-- ===== src/Collector/Sweeping.antt =====
-- The sweep of src/jelatine/memory.c (`gc_sweep`) without pointer reversal, which returns what no marked
-- object takes to the bins, and the sizes of arrays of src/jelatine/array.c that it reads. Where it
-- starts the bins are empty (`gc_purge_bin` has cleared them), and the words outside objects and the
-- references in front of headers have no bits in their two lowest places. `none` is a scan that is
-- longer than the fuel.
pub mod Layout
pub mod Steps
pub mod Loop
pub mod Extents
mod Tests
use jelatine.Common.{
  ℕ, zero, suc, ◌+◌, ◌-◌, ◌*◌, ◌/◌, ◌%◌, ◌^◌, bit_and, Bool, true, false, not, ◌&&◌, Option, none,
  some, List, [], ◌∷◌, ltb, leb, ◌==◌, if◌then◌else◌, get_or,
}
use jelatine.Util.{size_ceil, size_max, size_div_inf}
use jelatine.Header.{is_object, get_class, get_size, is_marked, clear_mark}
use jelatine.Memory.Chunks.{put_chunk}
use jelatine.Memory.Heap.{Heap, grow, bitmap_clear}
use jelatine.Collector.{
  Memory, write, Class, pt_reference, class_is_array, array_length, array_get_ref_n,
}

-- The element sizes of arrays, by `array_elem_sizes` and `prim_to_array_types`, for PT_BYTE to PT_DOUBLE;
-- that of PT_BOOL is not used.
abbrev pub elem_sizes : List ℕ
elem_sizes = 1 ∷ 1 ∷ 2 ∷ 2 ∷ 4 ∷ 4 ∷ 8 ∷ 8 ∷ []

abbrev pub pt_bool : ℕ
pt_bool = 1

-- The length is a `uint32_t`, and so is its product with the size of the elements.
unfoldable pub array_get_nref_size : (ℕ → Class) → Memory → ℕ → ℕ
array_get_nref_size classes m array =
    let cl = classes (get_class (m array)) in
    if cl.elem_type == pt_reference
    then 8
    else if cl.elem_type == pt_bool
    then 8 + size_div_inf (array_length m array) 8
    else 8 + array_length m array * get_or elem_sizes cl.elem_type 0 % 2 ^ 32

-- The size behind the header and the number of references in front of it.
unfoldable pub nref_size : (ℕ → Class) → Memory → ℕ → ℕ
nref_size classes m scan =
    let cl = classes (get_class (m scan)) in
    size_ceil
      (if not (is_object (m scan))
        then get_size (m scan)
        else if class_is_array cl
        then array_get_nref_size classes m scan
        else cl.nref_size)
      8

unfoldable pub ref_n : (ℕ → Class) → Memory → ℕ → ℕ
ref_n classes m scan =
    let cl = classes (get_class (m scan)) in
    if not (is_object (m scan))
    then 0
    else if class_is_array cl
    then array_get_ref_n classes m scan
    else cl.ref_n

-- The local variables, with the heap and the memory.
pub record Sweep : Type 0 where
  pub memory : Memory
  pub heap : Heap
  pub scan : ℕ
  pub end : ℕ
  pub reclaimed : ℕ
  pub in_use : ℕ
  pub max_size : ℕ

-- The subtraction of `size_t`.
abbrev pub minus : ℕ → ℕ → ℕ
minus a b = (a + (2 ^ 64 - b)) % 2 ^ 64

-- The free space in front of an object, which starts at `start`.
unfoldable pub reclaim : ℕ → Sweep → Sweep
reclaim start s =
    let gap = minus start s.end in
    if leb 8 gap
    then record s {
      heap = record s.heap { bins = put_chunk s.end gap s.heap.bins };
      reclaimed = s.reclaimed + gap;
      max_size = if ltb s.max_size gap then gap else s.max_size;
    }
    else s

-- A marked object.
unfoldable pub sweep_marked : (ℕ → Class) → Sweep → Sweep
sweep_marked classes s =
    let nref = nref_size classes s.memory s.scan in
    let refs = ref_n classes s.memory s.scan in
    let header = s.memory s.scan in
    let s' = reclaim (minus s.scan (refs * 8)) s in
    record s' {
      memory = if is_object header then write s.memory s.scan (clear_mark header) else s.memory;
      scan = s.scan + (8 + nref);
      end = s.scan + (8 + nref);
      in_use = s'.in_use + (refs * 8 + 8 + nref);
    }

unfoldable pub sweep_dead : (ℕ → Class) → Sweep → Sweep
sweep_dead classes s = record s {
  heap = bitmap_clear s.scan s.heap;
  scan = s.scan + (8 + nref_size classes s.memory s.scan);
}

-- One round of the loop.
unfoldable pub sweep_word : (ℕ → Class) → Sweep → Sweep
sweep_word classes s =
    if bit_and (s.memory s.scan) 3 == 0
    then record s { scan = s.scan + 8 }
    else if is_marked (s.memory s.scan)
    then sweep_marked classes s
    else sweep_dead classes s

unfoldable pub sweep_loop : ℕ → (ℕ → Class) → Sweep → Option Sweep
sweep_loop zero classes s = none
sweep_loop (suc fuel) classes s =
    let rest = sweep_loop fuel classes (sweep_word classes s) in
    if ltb s.scan s.heap.end then rest else some s

-- Behind the loop: the last free space goes to the bins, or the heap grows by it and what was asked for.
unfoldable pub finish_sweep : ℕ → Sweep → Heap
finish_sweep size s =
    let last = minus s.heap.end s.end in
    let max_size = if ltb s.max_size last then last else s.max_size in
    let reclaimed = s.reclaimed + last in
    if ltb size max_size && ltb (s.in_use / 2) reclaimed
    then record s.heap { bins = put_chunk s.end last s.heap.bins }
    else grow s.end
        (if ltb reclaimed (s.in_use / 2)
          then size_ceil (size_max size (s.in_use / 2 - reclaimed)) 8
          else size)
        s.heap

unfoldable pub sweep : ℕ → (ℕ → Class) → ℕ → Memory → Heap → Option (Memory × Heap)
sweep fuel classes size m h =
    elim (sweep_loop fuel classes (record {
      memory = m;
      heap = h;
      scan = h.start;
      end = h.start;
      reclaimed = 0;
      in_use = 0;
      max_size = 0;
    })) [ none ↦ none | some s ↦ some (s.memory, finish_sweep size s) ]
