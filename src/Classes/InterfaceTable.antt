-- ===== src/Classes/InterfaceTable.antt =====
-- The tables through which interface methods are called: `assign_interface_indexes` and
-- `create_interface_dispatch_table` of src/jelatine/loader.c, and the search in them by the opcode INVOKEINTERFACE of
-- src/jelatine/interpreter.c. The arrays `inames` and `itable` are one list of pairs, the methods of the
-- interfaces are a list for each interface, and `d` stands for an entry outside of the arrays.
pub mod Indexes
pub mod Implementing
pub mod Lookup
pub mod Calls
pub mod Linked
mod Tests
use jelatine.Common.{
  ℕ, zero, suc, ◌+◌, ◌/◌, ◌%◌, ◌^◌, ◌-◌, ◌||◌, Option, none, some, List, [], ◌∷◌, ◌++◌, map, ltb,
  ◌==◌, if◌then◌else◌, length, get_elem?,
}
use jelatine.Common.Outcome.{Outcome, ok, fault, stuck}
use jelatine.Util.Sort.{sort_asc_uint16_ptrs}
use jelatine.Methods.{Method, unpack_index}
use jelatine.Classes.Dispatch.{method_compare, set_index}

-- The calls of `next_interface_id` for the methods of an interface: the methods with their indexes, and
-- `bcl.interface_methods` behind them.
unfoldable pub assign_interface_indexes : List Method → ℕ → List Method × ℕ
assign_interface_indexes [] next = ([], next)
assign_interface_indexes (m ∷ methods) next =
    let rest = assign_interface_indexes methods ((next + 1) % 2 ^ 32) in
    (set_index next m ∷ rest.0, rest.1)

-- The loops that gather the methods of the interfaces.
unfoldable pub interface_methods : List (List Method) → List Method
interface_methods [] = []
interface_methods (methods ∷ interfaces) = methods ++ interface_methods interfaces

-- The loop over the dispatch table for one entry.
unfoldable pub implementation : Method → List Method → Method
implementation current [] = current
implementation current (m ∷ dtable) =
    implementation (if method_compare current m then m else current) dtable

-- The name of an interface method with what implements it.
abbrev pub entry : List Method → Method → ℕ × Method
entry dtable m = (m.index, implementation m dtable)

unfoldable pub create_interface_dispatch_table :
    ℕ × Method → List Method → List (List Method) → Outcome (List (ℕ × Method))
create_interface_dispatch_table d dtable interfaces =
    let methods = interface_methods interfaces in
    if length methods == 0
    then ok []
    else sort_asc_uint16_ptrs d (map (entry dtable) methods) (length methods)

-- The next bounds, for the name in the middle.
unfoldable pub narrow : ℕ → ℕ → ℕ → ℕ → ℕ → ℕ × ℕ
narrow index match low high mid =
    if ltb match index then ((mid + 1) % 2 ^ 32, high) else (low, (mid + (2 ^ 32 - 1)) % 2 ^ 32)

-- The loop goes on while `high >= low`; behind it the entry that was read last is called.
unfoldable pub search : ℕ → List (ℕ × Method) → ℕ → ℕ → ℕ → Outcome Method
search zero table index low high = stuck
search (suc fuel) table index low high =
    let mid = (low + high) % 2 ^ 32 / 2 in
    elim (get_elem? table mid) [
      | none ↦ fault
      | some found ↦
          let next = narrow index found.0 low high mid in
          let rest = search fuel table index next.0 next.1 in
          if (index == found.0) || ltb next.1 next.0 then ok found.1 else rest
    ]

-- The method that is called for the name `index`, on an object whose class has the table.
unfoldable pub lookup : List (ℕ × Method) → ℕ → Outcome Method
lookup table index = search (length table + 2) table index 0 (length table)

-- The opcode unpacks the name from its operand.
unfoldable pub invoke_interface : List (ℕ × Method) → ℕ → Outcome Method
invoke_interface table operand = lookup table (unpack_index operand)
