-- ===== src/Classes/InterfaceTable/Linked.antt =====
-- Calls of interface methods whose indexes `assign_interface_indexes` of src/jelatine/loader.c has given.
use mathlib.Core.Logic.{∥∥₁_elim, ∥∥₁_prop}
use mathlib.Core.Logic.Or
use mathlib.Core.List.{Mem, mem-cons, not-mem-nil}
use mathlib.Core.Bool.{Bool-set}
use mathlib.Core.Path.{subst}
use mathlib.Core.Option.{some-injective}
use jelatine.Common.{
  ℕ, suc, ◌+◌, ◌%◌, ◌^◌, ◌≤◌, ◌<◌, ◌≡◌, refl, sym, ap, ◌∙◌, true, some, List, [], ◌∷◌, ◌++◌, length,
  get_elem?, zero, ltb, arith,
}
use jelatine.Common.Outcome.{ok}
use jelatine.Descriptor.{arguments_max}
use jelatine.Methods.{Method, create_packed_index}
use jelatine.Methods.Packing.{unpack-create_packed_index}
use jelatine.Classes.Dispatch.{method_compare}
use jelatine.Classes.InterfaceTable.{
  interface_methods, assign_interface_indexes, create_interface_dispatch_table, invoke_interface,
}
use jelatine.Classes.InterfaceTable.Implementing.{method_compare_refl}
use jelatine.Classes.InterfaceTable.Indexes.{assign_interface_indexes_lem}
use jelatine.Classes.InterfaceTable.Calls.{mem-at, Implements, Unique, lookup-Implements}

-- The methods of interfaces that are loaded one after another, with the counter `next` in front of them.
unfoldable pub assign_all : List (List Method) → ℕ → List Method
assign_all [] next = []
assign_all (methods ∷ interfaces) next =
    let assigned = assign_interface_indexes methods next in
    assigned.0 ++ assign_all interfaces assigned.1

assign_interface_indexes-append :
    (xs ys : List Method) (next : ℕ)
    → assign_interface_indexes (xs ++ ys) next ≡ (
      (assign_interface_indexes xs next).0
          ++ (assign_interface_indexes ys (assign_interface_indexes xs next).1).0,
      (assign_interface_indexes ys (assign_interface_indexes xs next).1).1,
    )
unfolding assign_interface_indexes
assign_interface_indexes-append [] ys next = refl
assign_interface_indexes-append (x ∷ xs) ys next =
    rw (assign_interface_indexes, assign_interface_indexes-append xs ys ((next + 1) % 2 ^ 32)) refl

assign_all-interface_methods :
    (interfaces : List (List Method)) (next : ℕ)
    → assign_all interfaces next ≡ (assign_interface_indexes (interface_methods interfaces) next).0
unfolding assign_all interface_methods assign_interface_indexes
assign_all-interface_methods [] next = refl
assign_all-interface_methods (methods ∷ interfaces) next =
    let assigned = assign_interface_indexes methods next in
    let rest = assign_all-interface_methods interfaces assigned.1 in
    let whole = assign_interface_indexes-append methods (interface_methods interfaces) next in
    ap (λ (z : List Method). assigned.0 ++ z) rest ∙ sym (ap (λ (z : List Method × ℕ). z.0) whole)

mem-placed {ℓ} :
    {A : Type ℓ} {x : A} (l : List A) → Mem x l → ∥ ((k : ℕ) × (get_elem? l k ≡ some x)) ∥₁
mem-placed [] member = absurd (not-mem-nil member)
mem-placed (y ∷ l) member =
    Or.elim ∥∥₁_prop (mem-cons.0 member) (λ e. ∣ (0, ap some (sym e)) ∣₁)
      (λ rest. ∥∥₁_elim (mem-placed l rest) ∥∥₁_prop (λ (k, e). ∣ (suc k, e) ∣₁))

-- Methods with the same index are the same method.
assign_all-Unique :
    (interfaces : List (List Method)) (next : ℕ) (m : Method)
    → next + length (interface_methods interfaces) ≤ 2 ^ 16
    → Mem m (assign_all interfaces next)
    → Unique (assign_all interfaces next) m
assign_all-Unique interfaces next m small member m' member' same =
    let assigned = (assign_interface_indexes (interface_methods interfaces) next).0 in
    let e = assign_all-interface_methods interfaces next in
    let counted = (assign_interface_indexes_lem (interface_methods interfaces) next small).1 in
    let placed = mem-placed assigned (subst (Mem m) e member) in
    let placed' = mem-placed assigned (subst (Mem m') e member') in
    ∥∥₁_elim placed (Bool-set _ true) (λ (j, at_j). ∥∥₁_elim placed' (Bool-set _ true) (λ (k, at_k).
      let i : m.index ≡ next + j = counted j m at_j in
      let i' : m'.index ≡ next + k = counted k m' at_k in
      let jk : k ≡ j = omega arith in
      let one : get_elem? assigned j ≡ some m' = rw jk at at_k in
      let both : m ≡ m' = some-injective _ _ (sym at_j ∙ one) in
      subst (λ z. method_compare m z ≡ true) both (method_compare_refl m)))

placed-bound {ℓ} : {A : Type ℓ} {x : A} (l : List A) (k : ℕ) → get_elem? l k ≡ some x → k < length l
placed-bound [] k e = absurd (let a = e in cc)
placed-bound (y ∷ l) zero e = omega arith
placed-bound (y ∷ l) (suc k) e = let b = placed-bound l k e in omega arith

length-assign_interface_indexes :
    (methods : List Method) (next : ℕ)
    → length (assign_interface_indexes methods next).0 ≡ length methods
unfolding assign_interface_indexes
length-assign_interface_indexes [] next = refl
length-assign_interface_indexes (m ∷ methods) next =
    ap suc (length-assign_interface_indexes methods ((next + 1) % 2 ^ 32))

-- The indexes of at most 2 ^ 12 methods fit those 12 bits that are packed.
assign_all-bound :
    (interfaces : List (List Method)) (m : Method)
    → length (interface_methods interfaces) ≤ 2 ^ 12
    → Mem m (assign_all interfaces 0)
    → m.index < 2 ^ 12
assign_all-bound interfaces m small member =
    let methods = interface_methods interfaces in
    let assigned = (assign_interface_indexes methods 0).0 in
    let counted = (assign_interface_indexes_lem methods 0 (omega arith)).1 in
    let size = length-assign_interface_indexes methods 0 in
    let placed =
      mem-placed assigned (subst (Mem m) (assign_all-interface_methods interfaces 0) member) in
    let fits : ltb m.index (2 ^ 12) ≡ true = ∥∥₁_elim placed (Bool-set _ true) (λ (j, at_j).
      let i = counted j m at_j in let b = placed-bound assigned j at_j in ground arith) in
    ground arith

module _ (d : ℕ × Method) where
  -- For interfaces `loaded` with at most 2 ^ 12 methods in all, whose indexes `assign_interface_indexes`
  -- has given in turn, an interface method `m` with less than 2 ^ 4 slots of arguments, of a class all of
  -- whose interface methods, less than 2 ^ 31, are among them, and a method in its dispatch table with the
  -- name and descriptor of `m`: `create_interface_dispatch_table` returns, and INVOKEINTERFACE calls, for
  -- the operand that `method_create_packed_index` makes of `m`, a method of the dispatch table with the
  -- name and descriptor of `m`.
  pub invoke_interface-assign_all :
      (loaded : List (List Method)) (dtable : List Method) (interfaces : List (List Method))
      (m : Method) (j : ℕ)
      → length (interface_methods loaded) ≤ 2 ^ 12
      → m.args_size < arguments_max
      → length (interface_methods interfaces) < 2 ^ 31
      → ((x : Method) → Mem x (interface_methods interfaces) → Mem x (assign_all loaded 0))
      → get_elem? (interface_methods interfaces) j ≡ some m
      → Implements dtable m
      → (table : List (ℕ × Method)) × (r : Method) × (create_interface_dispatch_table d dtable
            interfaces
          ≡ ok table)
        × (invoke_interface table (create_packed_index m) ≡ ok r)
        × (method_compare m r ≡ true)
        × Mem r dtable
  unfolding invoke_interface
  invoke_interface-assign_all loaded dtable interfaces m j small slots size among at_j implemented =
      let held = among m (mem-at (interface_methods interfaces) j m at_j) in
      let unique = assign_all-Unique loaded 0 m (omega arith) held in
      let (table, r, e, call, same, rest) =
        lookup-Implements d dtable interfaces m j at_j size
          (λ m' member same. unique m' (among m' member) same) implemented in
      let unpacked =
        (unpack-create_packed_index m slots (assign_all-bound loaded m small held)).1 in
      (table, r, e, rw unpacked call, same, rest)
