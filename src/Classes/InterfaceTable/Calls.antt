-- ===== src/Classes/InterfaceTable/Calls.antt =====
-- Calls of interface methods: the table that `create_interface_dispatch_table` of
-- src/jelatine/loader.c makes, and the search in it by src/jelatine/interpreter.c.
use mathlib.Core.HLevel.{⊥_prop}
use mathlib.Core.Logic.{∥∥₁_elim}
use mathlib.Core.Logic.Or
use mathlib.Core.List.{
  Mem, Mem-prop, Perm, mem-cons, not-mem-nil, mem-cons_self, mem-cons_of_mem, mem-map_of_mem,
  exists_of_mem-map,
}
use mathlib.Core.List.Perm
use jelatine.Common.{
  ℕ, zero, suc, ◌<◌, ◌^◌, ◌≡◌, ◌≢◌, ◌⊎◌, refl, ap, ◌∙◌, inl, inr, true, false, some, List, [], ◌∷◌,
  ◌==◌, map, length, get_or, get_elem?, Bool-cases, arith,
}
use mathlib.Core.Path.{subst}
use mathlib.Core.Option.{some-injective}
use jelatine.Common.Outcome.{ok}
use jelatine.Util.Sort.{key, sort_asc_uint16_ptrs}
use jelatine.Util.Sort.Sorted.{IsAscending, sort_asc_uint16_ptrs-IsAscending}
use jelatine.Methods.{Method}
use jelatine.Classes.Dispatch.{method_compare}
use jelatine.Classes.InterfaceTable.{
  interface_methods, implementation, entry, create_interface_dispatch_table, lookup,
}
use jelatine.Classes.InterfaceTable.Implementing.{
  method_compare-sym, method_compare_trans, method_compare-implementation, implementation-found,
}
use jelatine.Classes.InterfaceTable.Lookup.{lookup-found}

module _ {ℓ} {A : Type ℓ} where
  pub mem-at : (l : List A) (k : ℕ) (x : A) → get_elem? l k ≡ some x → Mem x l
  mem-at [] k x e = absurd (let a = e in cc)
  mem-at (y ∷ l) zero x e = subst (λ z. Mem z (y ∷ l)) (some-injective _ _ e) mem-cons_self
  mem-at (y ∷ l) (suc k) x e = mem-cons_of_mem y (mem-at l k x e)

  length-map : {B : Type 0} (f : A → B) (l : List A) → length (map f l) ≡ length l
  length-map f [] = refl
  length-map f (x ∷ l) = ap suc (length-map f l)

  length-at : (l : List A) (k : ℕ) (x : A) → get_elem? l k ≡ some x → 0 < length l
  length-at [] k x e = absurd (let a = e in cc)
  length-at (y ∷ l) k x e = omega arith

  module _ (d : ℕ × A) where
    mem-get_or : (l : List (ℕ × A)) (k : ℕ) → k < length l → Mem (get_or l k d) l
    mem-get_or [] k h = absurd (omega arith)
    mem-get_or (y ∷ l) zero h = mem-cons_self
    mem-get_or (y ∷ l) (suc k) h = mem-cons_of_mem y (mem-get_or l k (omega arith))

    -- Either some entry has the name, or none.
    named :
        (l : List (ℕ × A)) (index : ℕ)
        → ((p : ℕ) × (p < length l) × (key d l p ≡ index)) ⊎ ((e : ℕ × A) → Mem e l → e.0 ≢ index)
    named [] index = inr (λ e m. absurd (not-mem-nil m))
    named (y ∷ l) index = elim (Bool-cases (y.0 == index)) [
      | inl t ↦ inl (0, omega arith, ground arith)
      | inr f ↦ elim (named l index) [
        | inl (p, h, e) ↦ inl (suc p, omega arith, e)
        | inr n ↦ inr (λ e m same.
            Or.elim ⊥_prop (mem-cons.0 m)
              (λ q. let s = ap (λ (z : ℕ × A). z.0) q in absurd (ground arith)) (λ k. n e k same))
      ]
    ]

-- Methods of the interfaces with the index of `m` have its name and descriptor.
abbrev pub Unique : List Method → Method → Type 0
Unique methods m = (m' : Method) → Mem m' methods → m'.index ≡ m.index → method_compare m m' ≡ true

-- A table with a method that implements `m`.
abbrev pub Implements : List Method → Method → Type 0
Implements dtable m =
    (k : ℕ) × (x : Method) × (get_elem? dtable k ≡ some x) × (method_compare m x ≡ true)

implementation-Mem :
    (dtable : List Method) (m m' : Method)
    → Implements dtable m
    → method_compare m' m ≡ true
    → Mem (implementation m' dtable) dtable
implementation-Mem dtable m m' (k, x, e, h) same =
    let (j, e') = implementation-found m' x dtable k e (method_compare_trans m' m x same h) in
    mem-at dtable j (implementation m' dtable) e'

-- What an entry with the index of `m` holds.
entry-Implements :
    (dtable methods : List Method) (m : Method) (e : ℕ × Method)
    → Unique methods m
    → Implements dtable m
    → Mem e (map (entry dtable) methods)
    → e.0 ≡ m.index
    → (method_compare m e.1 ≡ true) × Mem e.1 dtable
entry-Implements dtable methods m e unique implemented member index = (
  elim (Bool-cases (method_compare m e.1)) [
    | inl y ↦ y
    | inr n ↦ absurd (
        ∥∥₁_elim (exists_of_mem-map member) ⊥_prop (λ (m', held, same).
          let i : m'.index ≡ m.index = ap (λ (z : ℕ × Method). z.0) same ∙ index in
          let c = method_compare-implementation m m' dtable (unique m' held i) in
          let c' : method_compare m e.1 ≡ true =
            subst (λ (z : ℕ × Method). method_compare m z.1 ≡ true) same c in
          let b = c' in cc))
  ],
  ∥∥₁_elim (exists_of_mem-map member) Mem-prop (λ (m', held, same).
      let i : m'.index ≡ m.index = ap (λ (z : ℕ × Method). z.0) same ∙ index in
      subst (λ (z : ℕ × Method). Mem z.1 dtable) same
        (implementation-Mem dtable m m' implemented (method_compare-sym m m' (unique m' held i)))),
)

module _ (d : ℕ × Method) where
  -- A table that has been sorted, with an entry for `m`.
  sorted-call :
      (dtable methods : List Method) (table : List (ℕ × Method)) (m : Method)
      → length table < 2 ^ 31
      → Perm table (map (entry dtable) methods)
      → IsAscending d table
      → Mem m methods
      → Unique methods m
      → Implements dtable m
      → (r : Method) × (lookup table m.index ≡ ok r) × (method_compare m r ≡ true) × Mem r dtable
  sorted-call dtable methods table m small perm up member unique implemented =
      elim (named d table m.index) [
        | inr n ↦
            absurd (
              n (entry dtable m) ((Perm.mem_iff perm).1 (mem-map_of_mem (entry dtable) member))
                refl)
        | inl (p, pn, e) ↦
            let (q, qn, e', call) = lookup-found d table m.index p up small pn e in
            let found = get_or table q d in
            let r =
              entry-Implements dtable methods m found unique implemented
                ((Perm.mem_iff perm).0 (mem-get_or d table q qn)) e' in
            (found.1, call, r.0, r.1)
      ]

  -- For an interface method `m` of a class with less than 2 ^ 31 interface methods, of which those with
  -- the index of `m` have its name and descriptor, and with a method in its dispatch table that has them
  -- as well: `create_interface_dispatch_table` returns, and the search for the index of `m` ends at
  -- a method of the dispatch table with the name and descriptor of `m`.
  pub lookup-Implements :
      (dtable : List Method) (interfaces : List (List Method)) (m : Method) (j : ℕ)
      → get_elem? (interface_methods interfaces) j ≡ some m
      → length (interface_methods interfaces) < 2 ^ 31
      → Unique (interface_methods interfaces) m
      → Implements dtable m
      → (table : List (ℕ × Method)) × (r : Method) × (create_interface_dispatch_table d dtable
            interfaces
          ≡ ok table)
        × (lookup table m.index ≡ ok r)
        × (method_compare m r ≡ true)
        × Mem r dtable
  unfolding create_interface_dispatch_table
  lookup-Implements dtable interfaces m j at_j small unique implemented =
      let methods = interface_methods interfaces in
      let size = length-map (entry dtable) methods in
      let some_method = length-at methods j m at_j in
      let n : (length methods == 0) ≡ false = ground arith in
      let (table, e, perm, up, same_size) =
        sort_asc_uint16_ptrs-IsAscending d (map (entry dtable) methods) (omega arith)
          (omega arith) in
      let e' : sort_asc_uint16_ptrs d (map (entry dtable) methods) (length methods) ≡ ok table =
        rw size at e in
      let (r, call, same, member) =
        sorted-call dtable methods table m (omega arith) perm up (mem-at methods j m at_j) unique
          implemented in
      (table, r, rw (create_interface_dispatch_table, n) e', call, same, member)
