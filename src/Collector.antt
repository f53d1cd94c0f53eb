-- ===== src/Collector.antt =====
-- The marking of the collector, src/jelatine/memory.c without pointer reversal (`gc_mark_reference`,
-- `gc_mark_potential`), and of the threads' roots in src/jelatine/thread.c (`tm_mark`), with what
-- they read of arrays (src/jelatine/array.c) and of classes (src/jelatine/class.h).
--
-- The memory is a function from addresses to words of 8 bytes, which is read and written at whole words;
-- the references of an object stand in front of its header. Classes do not change during a collection, so
-- they are a function from addresses to records. `none` is a recursion that goes deeper than the fuel.
pub mod Objects
pub mod Marks
pub mod Marking
pub mod Roots
pub mod Sweeping
pub mod WeakReferences
pub mod Clearing
mod Tests
use jelatine.Common.{
  ℕ, zero, suc, ◌+◌, ◌-◌, ◌*◌, ◌%◌, ◌^◌, bit_and, Bool, true, false, not, ◌&&◌, ◌||◌, Option, none,
  some, List, [], ◌∷◌, ltb, ◌==◌, if◌then◌else◌,
}
use jelatine.Header.{is_object, get_class, is_marked, set_mark}
use jelatine.Memory.Heap.{Heap, bitmap_get}

abbrev pub Memory : Type 0
Memory = ℕ → ℕ

abbrev pub write : Memory → ℕ → ℕ → Memory
write m a v b = if a == b then v else m b

-- What the collector reads of `struct class_t`.
pub record Class : Type 0 where
  pub access_flags : ℕ
  pub elem_type : ℕ
  pub ref_n : ℕ
  pub nref_size : ℕ

abbrev pub acc_array : ℕ
acc_array = 0x1000

abbrev pub pt_reference : ℕ
pt_reference = 8

abbrev pub class_is_array : Class → Bool
class_is_array cl = not (bit_and cl.access_flags acc_array == 0)

-- The length is the lower half of the word behind the header.
abbrev pub array_length : Memory → ℕ → ℕ
array_length m array = m (array + 8) % 2 ^ 32

abbrev pub array_get_ref_n : (ℕ → Class) → Memory → ℕ → ℕ
array_get_ref_n classes m array =
    if (classes (get_class (m array))).elem_type == pt_reference then array_length m array else 0

-- The number of references of the object `ref` of the class `cl`.
abbrev pub object_ref_n : (ℕ → Class) → Class → Memory → ℕ → ℕ
object_ref_n classes cl m ref =
    if class_is_array cl && (cl.elem_type == pt_reference)
    then array_get_ref_n classes m ref
    else cl.ref_n

infixl 5 ◌>>=◌
abbrev pub ◌>>=◌ : Option Memory → (Memory → Option Memory) → Option Memory
none >>= f = none
some m >>= f = f m

-- The loop over the `n` references from the address `from`; `mark` is the recursive call.
unfoldable pub mark_loop : (ℕ → Memory → Option Memory) → ℕ → ℕ → Memory → Option Memory
mark_loop mark zero from m = some m
mark_loop mark (suc n) from m =
    let new_ref = m from in
    let marked : Option Memory =
      if new_ref == 0 then some m else if is_marked (m new_ref) then some m else mark new_ref m in
    marked >>= (λ m'. mark_loop mark n (from + 8) m')

unfoldable pub mark_reference : ℕ → (ℕ → Class) → ℕ → Memory → Option Memory
mark_reference zero classes ref m = none
mark_reference (suc fuel) classes ref m =
    let cl = classes (get_class (m ref)) in
    let marked = write m ref (set_mark (m ref)) in
    let ref_n = object_ref_n classes cl marked ref in
    if ref == 0
    then some m
    else if not (is_object (m ref))
    then some m
    else if is_marked (m ref)
    then some m
    else mark_loop (mark_reference fuel classes) ref_n (ref - 8 * ref_n) marked

unfoldable pub mark_potential : ℕ → (ℕ → Class) → Heap → ℕ → Memory → Option Memory
mark_potential fuel classes h ref m =
    if not (bit_and ref 7 == 0)
    then some m
    else if ltb ref h.start || not (ltb ref h.end)
    then some m
    else if not (bitmap_get ref h)
    then some m
    else mark_reference fuel classes ref m

-- What the collector reads of `struct thread_t`: the temporary roots are the words that they point
-- to, the stack is the words below the stack pointer.
pub record Thread : Type 0 where
  pub obj : ℕ
  pub roots : List ℕ
  pub stack : List ℕ
  pub exception : ℕ

unfoldable pub mark_words : ℕ → (ℕ → Class) → Heap → List ℕ → Memory → Option Memory
mark_words fuel classes h [] m = some m
mark_words fuel classes h (ref ∷ words) m = do
  m' ← mark_potential fuel classes h ref m
  mark_words fuel classes h words m'

unfoldable pub mark_thread : ℕ → (ℕ → Class) → Heap → Thread → Memory → Option Memory
mark_thread fuel classes h thread m = do
  m1 ← mark_reference fuel classes thread.obj m
  m2 ← mark_words fuel classes h thread.roots m1
  m3 ← mark_words fuel classes h thread.stack m2
  mark_reference fuel classes thread.exception m3

unfoldable pub tm_mark : ℕ → (ℕ → Class) → Heap → List Thread → Memory → Option Memory
tm_mark fuel classes h [] m = some m
tm_mark fuel classes h (thread ∷ queue) m = do
  m' ← mark_thread fuel classes h thread m
  tm_mark fuel classes h queue m'
