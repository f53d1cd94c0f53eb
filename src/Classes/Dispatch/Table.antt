-- ===== src/Classes/Dispatch/Table.antt =====
-- `create_dispatch_table` of src/jelatine/loader.c as a whole.
use jelatine.Common.{
  ℕ, zero, suc, ◌+◌, ◌^◌, ◌≤◌, ◌≡◌, ◌≢◌, inl, inr, refl, ap, false, Option, some, List, [], ◌∷◌,
  length, get_elem?, All, Bool-cases, arith,
}
use mathlib.Core.Path.{subst}
use mathlib.Core.Option.{some-injective}
use jelatine.Methods.{Method}
use jelatine.Classes.Dispatch.Overriding.{Search-cases, Placed, assign_indexes-Assigned}
use jelatine.Classes.Dispatch.{
  filled, is_direct, Search, find_overridden, set_index, onto, assign_indexes, fill_table,
  new_table, create_dispatch_table,
}
use jelatine.Classes.Dispatch.Filling.{
  Covers, Held, new_table-Covers, fill_table-Covers, fill_table-Held,
}

-- The first method of the parent's table with the name and descriptor of a virtual one may be overridden.
abbrev pub Allowed : List Method → Method → Type 0
Allowed parent m = is_direct m ≡ false → find_overridden m parent 0 ≢ Search.thrown

onto-total :
    (m : Method) (o : Option (List Method × ℕ))
    → ((methods : List Method) × (count : ℕ) × (o ≡ some (methods, count)))
    → (methods : List Method) × (count : ℕ) × (onto m o ≡ some (methods, count))
onto-total m o (methods, count, e) = (m ∷ methods, count, ap (onto m) e)

assign_indexes-total :
    (parent methods : List Method) (count : ℕ)
    → All (Allowed parent) methods
    → (methods' : List Method) × (count' : ℕ) × (assign_indexes parent methods count
        ≡ some (methods', count'))
unfolding assign_indexes
assign_indexes-total parent [] count a = ([], count, refl)
assign_indexes-total parent (m ∷ methods) count a = elim (Bool-cases (is_direct m)) [
  | inl y ↦
      rw (assign_indexes, y)
        (onto-total (set_index 0 m) _ (assign_indexes-total parent methods count a.1))
  | inr f ↦ elim (Search-cases (find_overridden m parent 0)) [
    | inl (i, e) ↦
        rw (assign_indexes, f, e)
          (onto-total (set_index i m) _ (assign_indexes-total parent methods count a.1))
    | inr (inl e) ↦
        rw (assign_indexes, f, e)
          (onto-total (set_index count m) _ (assign_indexes-total parent methods (count + 1) a.1))
    | inr (inr e) ↦ absurd (a.0 f e)
  ]
]

All-at :
    (P : Method → Type 0) (methods : List Method) (k : ℕ) (m : Method)
    → All P methods
    → get_elem? methods k ≡ some m
    → P m
All-at P [] k m a e = absurd (let b = e in cc)
All-at P (q ∷ methods) zero m a e = subst P (some-injective _ _ e) a.0
All-at P (q ∷ methods) (suc k) m a e = All-at P methods k m a.1 e

-- With at most 2 ^ 16 entries in sight, and no virtual method whose first match in the parent's table is
-- final or has stronger access privileges: `create_dispatch_table` returns. Each entry of the parent's
-- table is at its place in the new one, or one that overrides it is: with the same name and descriptor,
-- and it is not final and loses no access. Each virtual method of the class has the index of an entry
-- that is a virtual method of the class with that index. There are at most as many entries as the
-- parent's table has and methods.
pub create_dispatch_table-Covers :
    (parent methods : List Method)
    → length parent + length methods ≤ 2 ^ 16
    → All (Allowed parent) methods
    → (methods' : List Method) × (table : List (Option Method)) × (create_dispatch_table parent
          methods
        ≡ some (methods', table))
      × (length table ≤ length parent + length methods)
      × Covers parent (length table) table
      × ((k : ℕ) (m : Method)
          → get_elem? methods' k ≡ some m
          → is_direct m ≡ false
          → Held methods' table m.index)
unfolding create_dispatch_table
create_dispatch_table-Covers parent methods small allowed =
    let (methods', count, e) = assign_indexes-total parent methods (length parent) allowed in
    let (low, high, placed) =
      assign_indexes-Assigned parent methods (length parent) methods' count (omega arith) small e in
    let table = fill_table methods' (new_table parent count) in
    let start = new_table-Covers parent count low in
    let covers = fill_table-Covers parent count methods' (new_table parent count) placed start in
    let size = covers.0 in
    (
      methods',
      table,
      ap (filled parent) e,
      omega arith,
      (refl, covers.1),
      λ k m at_k f.
          let below = (All-at (Placed parent count) methods' k m placed at_k f).0 in
          let whole = start.0 in
          fill_table-Held methods' (new_table parent count) k m at_k f (omega arith),
    )
