-- ===== src/Classes/Dispatch.antt =====
-- `create_dispatch_table` of src/jelatine/loader.c: the table of the virtual methods of a class. The
-- methods of the class are the list that the iterator walks; the table is a list with `none` for NULL,
-- and its entries are the methods to which it points.
pub mod Overriding
pub mod Filling
pub mod Table
mod Tests
use jelatine.Common.{
  ℕ, ◌+◌, ◌-◌, ◌%◌, ◌^◌, Bool, true, false, not, ◌&&◌, ◌||◌, Option, none, some, List, [], ◌∷◌,
  ◌++◌, if◌then◌else◌, map, length, set, replicate,
}
use jelatine.Methods.{
  Method, is_init, has_flag, acc_public, acc_private, acc_protected, acc_static, acc_final,
}
use jelatine.Strings.{same_chars}

unfoldable pub method_compare : Method → Method → Bool
method_compare method1 method2 =
    same_chars method1.name method2.name && same_chars method1.descriptor method2.descriptor

-- The methods that are called directly.
abbrev pub is_direct : Method → Bool
is_direct m = has_flag m.access_flags acc_static || is_init m || has_flag m.access_flags acc_private

-- A method with weaker access privileges than the one that it overrides.
abbrev pub is_weaker : Method → Method → Bool
is_weaker m overridden =
    (has_flag overridden.access_flags acc_public && not (has_flag m.access_flags acc_public))
    || (has_flag overridden.access_flags acc_protected
        && not (has_flag m.access_flags acc_protected || has_flag m.access_flags acc_public))

pub data Search : Type 0 where
  found : ℕ → Search
  absent : Search
  thrown : Search

-- The loop over the parent's table, from the index `i` on.
unfoldable pub find_overridden : Method → List Method → ℕ → Search
find_overridden m [] i = Search.absent
find_overridden m (overridden ∷ rest) i =
    if method_compare m overridden
    then (if has_flag overridden.access_flags acc_final || is_weaker m overridden
        then Search.thrown
        else Search.found i)
    else find_overridden m rest (i + 1)

-- `method_set_index`, which keeps 16 bits.
abbrev pub set_index : ℕ → Method → Method
set_index i m = record m { index = i % 2 ^ 16 }

abbrev pub onto : Method → Option (List Method × ℕ) → Option (List Method × ℕ)
onto m none = none
onto m (some (methods, new_count)) = some (m ∷ methods, new_count)

-- The first loop over the methods; `none` is an exception.
unfoldable pub assign_indexes : List Method → List Method → ℕ → Option (List Method × ℕ)
assign_indexes parent [] new_count = some ([], new_count)
assign_indexes parent (m ∷ methods) new_count =
    if is_direct m
    then onto (set_index 0 m) (assign_indexes parent methods new_count)
    else elim (find_overridden m parent 0) [
      | Search.found i ↦ onto (set_index i m) (assign_indexes parent methods new_count)
      | Search.absent ↦ onto (set_index new_count m) (assign_indexes parent methods (new_count + 1))
      | Search.thrown ↦ none
    ]

-- The second loop.
unfoldable pub fill_table : List Method → List (Option Method) → List (Option Method)
fill_table [] table = table
fill_table (m ∷ methods) table =
    fill_table methods (if is_direct m then table else set table m.index (some m))

-- The table of `new_count` entries with the parent's table copied into it.
abbrev pub new_table : List Method → ℕ → List (Option Method)
new_table parent new_count = map some parent ++ replicate (new_count - length parent) none

abbrev pub filled :
    List Method → Option (List Method × ℕ) → Option (List Method × List (Option Method))
filled parent none = none
filled parent (some (methods, new_count)) =
    some (methods, fill_table methods (new_table parent new_count))

-- The methods with their indexes, and the table.
unfoldable pub create_dispatch_table :
    List Method → List Method → Option (List Method × List (Option Method))
create_dispatch_table parent methods = filled parent (assign_indexes parent methods (length parent))
