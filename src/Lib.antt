-- ===== src/Lib.antt =====
-- Jelatine is a Java virtual machine for small devices, in C (src/jelatine). A class file is read,
-- its names are interned, its methods are prepared, and the interpreter runs them on a heap with a
-- mark and sweep collector.
--
-- Which file models what:
-- - Util: src/jelatine/util.h and util.c, the rounding of sizes (`size_ceil`, `size_floor`,
--   `size_div_inf`) and `get_time_with_offset`. Util.Sort: `sort_asc_uint16_ptrs`.
-- - Utf8: the conversions of src/jelatine/utf8_string.c between class file UTF-8 and Java characters
--   (`utf8_check` is `check`, `utf8_to_java_length` is `to_java_length`, `utf8_to_java` is `to_java`,
--   `utf8_slashify` is `slashify`, `utf8_hash` is `hash`). Utf8.Encode is the encoding by itself.
-- - Strings: the string manager of the same file (`string_manager_init` is `manager_init`,
--   `string_manager_rehash` is `rehash`, `utf8_intern` is `intern`). It keeps one copy of each
--   name of the constant pools, so it is a finite map from strings to addresses.
-- - JString: hashing and comparison of Java strings in src/jelatine/jstring.c (`jstring_hash`,
--   `jstring_equals`), and the purge of the table of interned strings (`jsm_purge`), which
--   runs after the collector has marked.
-- - Memory.Chunks: the bins of free chunks of src/jelatine/memory.c (`put_chunk`, `get_chunk`,
--   `gc_free_memory`). Memory.Heap: the heap around them (`gc_init` is `init`, `gc_grow` is `grow`,
--   the permanent area of `gc_palloc` is `palloc`) and the bitmap of object headers. The heap
--   hands what it gains to the bins by `put_chunk`.
-- - Descriptor: `parse_method_descriptor` of src/jelatine/method.c is `parse`. Descriptor.Grammar is
--   the grammar of descriptors.
-- - Methods: the method manager of the same file (`mm_add` is `add_method`, `mm_get` is `get`),
--   which compares strings as Strings does and calls the parser of descriptors, and the packed index
--   of a method in the translated bytecode.
-- - Fields: src/jelatine/field.c (`field_parse_descriptor` is `parse_field`, `static_field_data_ptr`
--   is `static_field_data`, the iterator is `field_itr` and `itr_get_next`), with the grammar of
--   Descriptor.
-- - Header: the header words of objects, src/jelatine/header.h, which the collector marks and the
--   purge of Java strings reads (`header_set_mark` is `set_mark`, and so on).
-- - Monitors: the table of monitors of src/jelatine/thread.c (`monitor_enter` is `enter`, `monitor_exit`
--   is `exit`, `thread_notify` is `notify`, `tm_rehash` is `rehash`, `thread_wait` is `wait`, and
--   `monitor_init` and `tm_purge` have their names). Monitors.View is what a table stands for, an owner
--   and a count for each object; Monitors.Exclusion runs the calls of several threads in any order.
-- - Collector: the marking of src/jelatine/memory.c (`gc_mark_reference` is `mark_reference`,
--   `gc_mark_potential` is `mark_potential`) from the roots of the threads (`tm_mark` of
--   src/jelatine/thread.c), with the headers of Header and the bitmap of Memory.Heap. Its recursion
--   runs on fuel for the objects that are not marked yet.
-- - Collector.Sweeping: `gc_sweep` is `sweep`, over the memory in words, with the bins of Memory.Chunks
--   and the `grow` of Memory.Heap. Collector.Sweeping.Layout is the layout of objects that it relies on.
--   Collector.Clearing: `gc_purge_bin` is `purge_bin`, which comes before the marking.
--   Collector.WeakReferences: the list of weak references (`gc_register_weak_ref`,
--   `gc_purge_weakref_list` is `purge_weakref_list`), whose loop unlinks as that of JString does.
-- - Classes: what src/jelatine/loader.c makes of a class-file, with src/jelatine/class.c and
--   src/jelatine/verifier.c. Classes.Hierarchy has the classes by their addresses (`im_add`,
--   `im_is_present`, `class_is_parent`, `bcl_is_assignable`, whose loop over the parents is `climb`),
--   and Classes.Linking the loading of a class as far as the hierarchy goes (`load_class`,
--   `derive_class`, `load_interfaces`); Classes.Linking.Order has the order in which classes are
--   linked, as steps. The loops up the hierarchy run on fuel; the turn in which a class was linked is
--   enough. Classes.Subtypes is the relation of the language. Classes.Members has the fields of a class
--   (`load_fields`, `verify_field`, `class_add_field`, `class_get_field`), Classes.Layout their offsets
--   (`layout_fields`), Classes.Dispatch the tables of virtual methods (`create_dispatch_table`),
--   Classes.InterfaceTable those of interface methods (`assign_interface_indexes`, and
--   `create_interface_dispatch_table`, which sorts with Util.Sort; `assign_all` is the loading of
--   several interfaces) and the search in them (`lookup`) by the opcode INVOKEINTERFACE
--   (`invoke_interface`, on the operand that `method_create_packed_index` packs) of
--   src/jelatine/interpreter.c, on fuel for two steps more than the table has entries, and
--   Classes.Access `same_package` and `verify_field_access`. Classes.Sample is a small hierarchy for
--   the tests.
-- - Common: shared tests, arrays as lists, bit fields, outcomes of C functions, linked lists.
--
-- Numbers are natural numbers, with the wrap-around of `size_t` (2 ^ 64) and of `uint32_t` (2 ^ 32)
-- written out where the code can reach it. Words have 8 bytes. A plain `char` may be signed or not.
-- Memory is modelled where it matters to what is shown: the UTF-8 functions read and write lists that
-- end where the memory given ends, so an access outside is an outcome of its own. The loops over
-- strings run on one unit of fuel more than there are bytes, and the loop of the purge on more than
-- there are strings. The search along a chain of monitors runs on fuel that the chains of the table
-- bound (the invariant holds a bound for each table), and the search for a free bucket on the number of
-- buckets, which is enough where one is free. The other loops are recursions over the list that they walk.
-- The allocators of blocks and the clock are not modelled by themselves: what they return is an
-- argument.
--
-- Not modelled: the collector with pointer reversal, which is a build option, finalization, the
-- allocation of objects around the bins, the creation, stopping and joining of threads (the calls on
-- monitors hold the lock, so each is one step), the constant pool, the reading of class-files and
-- the resolution of fields and methods in the class loader, the rest of the interpreter and the native
-- methods (src/jelatine), which these components serve; the preverifier (src/preverifier), the class
-- library (src/classpath) and the replacements of C library functions (lib), which are other programs' code
-- or Java.
pub mod Common
pub mod Utf8
pub mod Memory
pub mod Util
pub mod JString
pub mod Strings
pub mod Descriptor
pub mod Methods
pub mod Fields
pub mod Header
pub mod Collector
pub mod Classes
pub mod Monitors
