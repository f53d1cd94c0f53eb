-- ===== src/Classes/Dispatch/Overriding.antt =====
-- What stands in the dispatch table that `create_dispatch_table` of src/jelatine/loader.c makes.
use jelatine.Common.{
  ℕ, suc, ◌+◌, ◌-◌, ◌%◌, ◌^◌, ◌<◌, ◌≤◌, ◌≡◌, ◌⊎◌, inl, inr, refl, ap, Bool, true, false, ◌||◌,
  Option, none, some, List, [], ◌∷◌, length, get_elem?, All, Bool-cases, arith,
}
use mathlib.Core.Path.{subst}
use mathlib.Core.Option.{some-injective}
use jelatine.Methods.{Method, is_init, has_flag, acc_final}
use jelatine.Classes.Dispatch.{
  method_compare, is_direct, is_weaker, Search, find_overridden, set_index, onto, assign_indexes,
}

-- A method that may stand for another one in a table.
abbrev pub Overrides : Method → Method → Type 0
Overrides m p =
    (method_compare m p ≡ true)
    × (has_flag p.access_flags acc_final ≡ false)
    × (is_weaker m p ≡ false)

-- Where a method may go: behind the parent's table, or to a method that it overrides.
abbrev pub Placed : List Method → ℕ → Method → Type 0
Placed parent count m =
    (is_direct m ≡ false)
    → (m.index < count)
      × ((length parent ≤ m.index)
          ⊎ ((p : Method) × (get_elem? parent m.index ≡ some p) × Overrides m p))

neither : (a b : Bool) → (a || b) ≡ false → (a ≡ false) × (b ≡ false)
neither a b h = (ground arith, ground arith)

find_overridden-found :
    (m : Method) (parent : List Method) (i n : ℕ)
    → find_overridden m parent i ≡ Search.found n
    → (i ≤ n)
      × (n < i + length parent)
      × ((p : Method) × (get_elem? parent (n - i) ≡ some p) × Overrides m p)
unfolding find_overridden
find_overridden-found m [] i n h = absurd (let e = h in cc)
find_overridden-found m (p ∷ rest) i n h = elim (Bool-cases (method_compare m p)) [
  | inl y ↦ elim (Bool-cases (has_flag p.access_flags acc_final || is_weaker m p)) [
    | inl bad ↦
        let h' : Search.thrown ≡ Search.found n = rw (find_overridden, y, bad) at h in
        absurd (let b = h' in cc)
    | inr good ↦
        let h' : Search.found i ≡ Search.found n = rw (find_overridden, y, good) at h in
        let e : i ≡ n = let b = h' in cc in
        let z : n - i ≡ 0 = omega arith in
        let (final, weaker) = neither _ _ good in
        (omega arith, omega arith, (p, rw z refl, (y, final, weaker)))
  ]
  | inr f ↦
      let h' : find_overridden m rest (i + 1) ≡ Search.found n = rw (find_overridden, f) at h in
      let (above, below, (q, e, o)) = find_overridden-found m rest (i + 1) n h' in
      let z : n - i ≡ suc (n - (i + 1)) = omega arith in (omega arith, omega arith, (q, rw z e, o))
]

pub Search-cases :
    (s : Search) → ((i : ℕ) × (s ≡ Search.found i)) ⊎ ((s ≡ Search.absent) ⊎ (s ≡ Search.thrown))
Search-cases (Search.found i) = inl (i, refl)
Search-cases Search.absent = inr (inl refl)
Search-cases Search.thrown = inr (inr refl)

onto-some :
    (m : Method) (o : Option (List Method × ℕ)) (methods : List Method) (count : ℕ)
    → onto m o ≡ some (methods, count)
    → (rest : List Method) × (o ≡ some (rest, count)) × (m ∷ rest ≡ methods)
onto-some m none methods count h = absurd (let e = h in cc)
onto-some m (some (rest, n)) methods count h =
    let e = some-injective _ _ h in
    (rest, ap (λ (k : ℕ). some (rest, k)) (ap (λ t. t.1) e), ap (λ t. t.0) e)

-- What the first loop gives from a count on.
abbrev pub Assigned : List Method → ℕ → ℕ → ℕ → List Method → Type 0
Assigned parent count n count' methods =
    (count ≤ count') × (count' ≤ count + n) × All (Placed parent count') methods

module _ (parent : List Method) where
  -- One more method in front.
  Assigned-cons :
      (count n count' i : ℕ) (m : Method) (o : Option (List Method × ℕ)) (methods : List Method)
      → onto (set_index i m) o ≡ some (methods, count')
      → ((rest : List Method) → o ≡ some (rest, count') → Assigned parent count n count' rest)
      → (count ≤ count' → Placed parent count' (set_index i m))
      → Assigned parent count n count' methods
  Assigned-cons count n count' i m o methods h ih placed =
      let (rest, e, cons) = onto-some (set_index i m) o methods count' h in
      let (a, b, all) = ih rest e in
      (a, b, subst (λ l. All (Placed parent count') l) cons (placed a, all))

  widen :
      (count n count' k : ℕ) (methods : List Method)
      → Assigned parent count n count' methods
      → Assigned parent count (suc n) count' methods
  widen count n count' k methods (a, b, all) = (a, omega arith, all)

  widen_next :
      (count n count' : ℕ) (methods : List Method)
      → Assigned parent (count + 1) n count' methods
      → (count + 1 ≤ count') × Assigned parent count (suc n) count' methods
  widen_next count n count' methods (a, b, all) = (a, (omega arith, omega arith, all))

  -- A method at the place of one that it overrides.
  found-Placed :
      (m : Method) (count i : ℕ)
      → length parent ≤ count
      → length parent ≤ 2 ^ 16
      → find_overridden m parent 0 ≡ Search.found i
      → Placed parent count (set_index i m)
  unfolding method_compare
  found-Placed m count i l small e d =
      let (above, below, (p, at_i, o)) = find_overridden-found m parent 0 i e in
      let index : i % 2 ^ 16 ≡ i = omega arith in
      let whole : i - 0 ≡ i = omega arith in
      let at_i' : get_elem? parent i ≡ some p = rw whole at at_i in
      rw index (omega arith, inr (p, at_i', o))

  -- A method behind the parent's table.
  absent-Placed :
      (m : Method) (count count' : ℕ)
      → length parent ≤ count
      → count < 2 ^ 16
      → count + 1 ≤ count'
      → Placed parent count' (set_index count m)
  absent-Placed m count count' l small k d =
      let index : count % 2 ^ 16 ≡ count = omega arith in rw index (omega arith, inl (omega arith))

  pub assign_indexes-Assigned :
      (methods : List Method) (count : ℕ) (methods' : List Method) (count' : ℕ)
      → length parent ≤ count
      → count + length methods ≤ 2 ^ 16
      → assign_indexes parent methods count ≡ some (methods', count')
      → Assigned parent count (length methods) count' methods'
  unfolding assign_indexes is_init
  assign_indexes-Assigned [] count methods' count' l small h =
      let e = some-injective _ _ h in
      let c : count ≡ count' = ap (λ t. t.1) e in
      let n : [] ≡ methods' = ap (λ t. t.0) e in
      (omega arith, omega arith, subst (λ l. All (Placed parent count') l) n tt)
  assign_indexes-Assigned (m ∷ methods) count methods' count' l small h =
      let n : ℕ = length methods in
      let rest = assign_indexes parent methods count in
      elim (Bool-cases (is_direct m)) [
        | inl y ↦
            let h' : onto (set_index 0 m) rest ≡ some (methods', count') =
              rw (assign_indexes, y) at h in
            Assigned-cons count (suc n) count' 0 m rest methods' h'
              (λ r e.
                widen count n count' 0 r
                  (assign_indexes-Assigned methods count r count' l (omega arith) e))
              (λ k f. absurd (let b : is_direct m ≡ false = f in cc))
        | inr f ↦ elim (Search-cases (find_overridden m parent 0)) [
          | inl (i, e) ↦
              let h' : onto (set_index i m) rest ≡ some (methods', count') =
                rw (assign_indexes, f, e) at h in
              Assigned-cons count (suc n) count' i m rest methods' h'
                (λ r e'.
                  widen count n count' 0 r
                    (assign_indexes-Assigned methods count r count' l (omega arith) e'))
                (λ k. found-Placed m count' i (omega arith) (omega arith) e)
          | inr (inl e) ↦
              let h' : onto (set_index count m) (assign_indexes parent methods (count + 1))
                  ≡ some (methods', count') =
                rw (assign_indexes, f, e) at h in
              let (r, e', cons) =
                onto-some (set_index count m) (assign_indexes parent methods (count + 1)) methods'
                  count' h' in
              let (k, (a, b, all)) = widen_next count n count' r (
                assign_indexes-Assigned methods (count + 1) r count' (omega arith) (omega arith)
                  e') in
              (
                a,
                b,
                subst (λ t. All (Placed parent count') t) cons
                    (absent-Placed m count count' l (omega arith) k, all),
              )
          | inr (inr e) ↦
              let h' : none ≡ some (methods', count') = rw (assign_indexes, f, e) at h in
              absurd (let b = h' in cc)
        ]
      ]
