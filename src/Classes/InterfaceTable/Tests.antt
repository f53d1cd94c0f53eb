-- ===== src/Classes/InterfaceTable/Tests.antt =====
-- Calls of interface methods on a small class.
use mathlib.Core.List.Perm
use mathlib.Core.List.{Mem}
use jelatine.Common.{ℕ, zero, suc, ◌<◌, ◌≡◌, refl, true, List, [], ◌∷◌, length, get_or, arith}
use jelatine.Common.Outcome.{ok, fault}
use jelatine.Methods.{Method, Code, create_packed_index, unpack_index}
use jelatine.Util.Sort.{key, swap, scan, exchange, sort_loop, sort_asc_uint16_ptrs}
use jelatine.Util.Sort.Sorted.{IsAscending}
use jelatine.Classes.Dispatch.{method_compare}
use jelatine.Classes.InterfaceTable.{
  interface_methods, assign_interface_indexes, implementation, create_interface_dispatch_table,
  narrow, search, lookup, invoke_interface,
}
use jelatine.Classes.InterfaceTable.Lookup.{invoke_interface-found}
use jelatine.Classes.InterfaceTable.Linked.{assign_all, invoke_interface-assign_all}

abbrev method : List ℕ → ℕ → Method
method name index = record {
  name = name;
  descriptor = 40 ∷ 41 ∷ 86 ∷ [];
  cp = 0;
  access_flags = 1;
  args_size = 1;
  index = index;
  max_stack = 0;
  max_locals = 0;
  return_type = 0;
  code_length = 0;
  exception_table_length = 0;
  code = Code.no_code;
  data_offset = 0;
}

-- Two interfaces with the methods "b" and "a", and the dispatch table of a class with both.
abbrev b : Method
b = method (98 ∷ []) 8

abbrev interfaces : List (List Method)
interfaces = (b ∷ []) ∷ (method (97 ∷ []) 4 ∷ []) ∷ []

abbrev dtable : List Method
dtable = method (97 ∷ []) 0 ∷ method (98 ∷ []) 1 ∷ []

abbrev table : List (ℕ × Method)
table = (4, method (97 ∷ []) 0) ∷ (8, method (98 ∷ []) 1) ∷ []

created : create_interface_dispatch_table (0, b) dtable interfaces ≡ ok table
unfolding create_interface_dispatch_table interface_methods implementation method_compare
    sort_asc_uint16_ptrs sort_loop exchange scan swap
created = refl

-- Two interfaces that are loaded in turn, and their methods with the indexes that they get.
abbrev loaded : List (List Method)
loaded = (method (98 ∷ []) 7 ∷ []) ∷ (method (97 ∷ []) 7 ∷ []) ∷ []

abbrev indexed : List (List Method)
indexed = (method (97 ∷ []) 1 ∷ []) ∷ (method (98 ∷ []) 0 ∷ []) ∷ []

invoke_interface-assign_all_example :
    (entries : List (ℕ × Method)) × (r : Method) × (create_interface_dispatch_table
        (0, b)
        dtable
        indexed
      ≡ ok entries)
    × (invoke_interface entries (create_packed_index (method (97 ∷ []) 1)) ≡ ok r)
    × (method_compare (method (97 ∷ []) 1) r ≡ true)
    × Mem r dtable
unfolding interface_methods method_compare assign_all assign_interface_indexes
invoke_interface-assign_all_example =
    invoke_interface-assign_all (0, b) loaded dtable indexed (method (97 ∷ []) 1) 0 (omega arith)
      (omega arith) (omega arith) (λ x h. (Perm.mem_iff (Perm.swap _ _ _)).0 h) refl
      (0, method (97 ∷ []) 0, refl, refl)

table-IsAscending : IsAscending (0, b) table
table-IsAscending zero zero pq l = omega arith
table-IsAscending zero (suc zero) pq l = omega arith
table-IsAscending zero (suc (suc q)) pq l = absurd (omega arith)
table-IsAscending (suc p) zero pq l = absurd (omega arith)
table-IsAscending (suc zero) (suc zero) pq l = omega arith
table-IsAscending (suc (suc p)) (suc zero) pq l = absurd (omega arith)
table-IsAscending (suc p) (suc (suc q)) pq l = absurd (omega arith)

invoke_interface-found_example :
    (q : ℕ) × (q < length table)
    × (key (0, b) table q ≡ unpack_index 129)
    × (invoke_interface table 129 ≡ ok (get_or table q (0, b)).1)
unfolding unpack_index
invoke_interface-found_example =
    invoke_interface-found (0, b) table 129 1 table-IsAscending (omega arith) (omega arith) refl

-- A name that the class has not: below all others the bound wraps around, above all others the search
-- reads behind the arrays, and between them a method of another name is called.
below_all : invoke_interface table 33 ≡ fault
unfolding invoke_interface lookup unpack_index search narrow
below_all = refl

above_all : invoke_interface table 145 ≡ fault
unfolding invoke_interface lookup unpack_index search narrow
above_all = refl

between : invoke_interface table 97 ≡ ok (method (97 ∷ []) 0)
unfolding invoke_interface lookup unpack_index search narrow
between = refl
