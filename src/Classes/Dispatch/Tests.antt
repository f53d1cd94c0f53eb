-- ===== src/Classes/Dispatch/Tests.antt =====
-- The dispatch table of a class below one with two methods.
use jelatine.Common.{
  ℕ, ◌+◌, ◌≤◌, ◌≡◌, refl, false, Option, none, some, List, [], ◌∷◌, length, get_elem?, arith,
}
use jelatine.Methods.{Method, Code, is_init}
use jelatine.Classes.Dispatch.{
  is_direct, method_compare, find_overridden, assign_indexes, fill_table, create_dispatch_table,
}
use jelatine.Classes.Dispatch.Filling.{Covers, Held}
use jelatine.Classes.Dispatch.Table.{create_dispatch_table-Covers}

abbrev method : List ℕ → ℕ → ℕ → Method
method name access_flags index = record {
  name = name;
  descriptor = 40 ∷ 41 ∷ 86 ∷ [];
  cp = 0;
  access_flags = access_flags;
  args_size = 1;
  index = index;
  max_stack = 0;
  max_locals = 0;
  return_type = 0;
  code_length = 0;
  exception_table_length = 0;
  code = Code.no_code;
  data_offset = 0;
}

-- The parent's methods "a" and "b".
abbrev parent : List Method
parent = method (97 ∷ []) 1 0 ∷ method (98 ∷ []) 1 1 ∷ []

-- A static method, a new one, and one that overrides "b".
abbrev methods : List Method
methods = method (115 ∷ []) 9 0 ∷ method (99 ∷ []) 1 0 ∷ method (98 ∷ []) 1 0 ∷ []

table :
    create_dispatch_table parent methods
    ≡ some (
      method (115 ∷ []) 9 0 ∷ method (99 ∷ []) 1 2 ∷ method (98 ∷ []) 1 1 ∷ [],
      some (method (97 ∷ []) 1 0) ∷ some (method (98 ∷ []) 1 1) ∷ some (method (99 ∷ []) 1 2) ∷ [],
    )
unfolding create_dispatch_table assign_indexes find_overridden method_compare fill_table is_init
table = refl

create_dispatch_table-Covers_example :
    (methods' : List Method) × (entries : List (Option Method)) × (create_dispatch_table parent
        methods
      ≡ some (methods', entries))
    × (length entries ≤ length parent + length methods)
    × Covers parent (length entries) entries
    × ((k : ℕ) (m : Method)
        → get_elem? methods' k ≡ some m
        → is_direct m ≡ false
        → Held methods' entries m.index)
unfolding find_overridden method_compare is_init
create_dispatch_table-Covers_example =
    create_dispatch_table-Covers parent methods (omega arith)
      ((λ f e. let b = e in cc), ((λ f e. let b = e in cc), ((λ f e. let b = e in cc), tt)))

-- A final method is not overridden.
final_method :
    create_dispatch_table (method (97 ∷ []) 0x11 0 ∷ []) (method (97 ∷ []) 1 0 ∷ []) ≡ none
unfolding create_dispatch_table assign_indexes find_overridden method_compare is_init
final_method = refl
