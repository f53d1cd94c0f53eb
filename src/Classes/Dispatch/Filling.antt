-- ===== src/Classes/Dispatch/Filling.antt =====
-- The dispatch table that `create_dispatch_table` of src/jelatine/loader.c fills.
use jelatine.Common.{
  ℕ, zero, suc, ◌-◌, ◌<◌, ◌≤◌, ◌≡◌, ◌≢◌, ◌⊎◌, inl, inr, refl, sym, ap, ◌∙◌, false, Option, none,
  some, List, [], ◌∷◌, ◌++◌, ◌==◌, map, length, set, get_or, get_elem?, replicate, length-set,
  length-append, length-replicate, get_or-set_self, get_or-set_ne, All, Bool-cases, arith,
}
use mathlib.Core.Path.{subst}
use mathlib.Core.Option.{some-injective}
use jelatine.Methods.{Method}
use jelatine.Classes.Dispatch.Overriding.{Overrides, Placed}
use jelatine.Classes.Dispatch.{is_direct, fill_table, new_table}

get_elem?-lt :
    (parent : List Method) (i : ℕ) (p : Method) → get_elem? parent i ≡ some p → i < length parent
get_elem?-lt [] i p e = absurd (let a = e in cc)
get_elem?-lt (q ∷ parent) zero p e = omega arith
get_elem?-lt (q ∷ parent) (suc i) p e = omega (arith, get_elem?-lt parent i p e)

get_or-map :
    (parent : List Method) (more : List (Option Method)) (i : ℕ) (p : Method)
    → get_elem? parent i ≡ some p
    → get_or (map some parent ++ more) i none ≡ some p
get_or-map [] more i p e = absurd (let a = e in cc)
get_or-map (q ∷ parent) more zero p e = e
get_or-map (q ∷ parent) more (suc i) p e = get_or-map parent more i p e

length-map : (parent : List Method) → length (map some parent) ≡ length parent
length-map [] = refl
length-map (q ∷ parent) = ap suc (length-map parent)

-- A table of the length `count` in which each entry of the parent's table is kept or overridden.
abbrev pub Covers : List Method → ℕ → List (Option Method) → Type 0
Covers parent count table =
    (length table ≡ count)
    × ((i : ℕ) (p : Method)
        → get_elem? parent i ≡ some p
        → (m : Method) × (get_or table i none ≡ some m) × ((m ≡ p) ⊎ Overrides m p))

pub new_table-Covers :
    (parent : List Method) (count : ℕ)
    → length parent ≤ count
    → Covers parent count (new_table parent count)
new_table-Covers parent count l =
    let rest : List (Option Method) = replicate (count - length parent) none in
    (
      omega (
        arith,
        length-append (map some parent) rest,
        length-map parent,
        length-replicate {A = Option Method} (count - length parent) none,
      ),
      λ i p e. (p, get_or-map parent rest i p e, inl refl),
    )

set-Covers :
    (parent : List Method) (count : ℕ) (table : List (Option Method)) (m : Method)
    → Covers parent count table
    → (m.index < count)
      × ((length parent ≤ m.index)
          ⊎ ((p : Method) × (get_elem? parent m.index ≡ some p) × Overrides m p))
    → Covers parent count (set table m.index (some m))
set-Covers parent count table m (l, c) (b, placed) = (
  length-set table m.index (some m) ∙ l,
  λ i p e. elim (Bool-cases (m.index == i)) [
    | inr f ↦
        let away : m.index ≢ i = ground arith in
        let (q, at_i, o) = c i p e in
        (q, get_or-set_ne table m.index i (some m) none away ∙ at_i, o)
    | inl y ↦
        let same : m.index ≡ i = ground arith in
        let written : get_or (set table m.index (some m)) i none ≡ some m =
          subst (λ j. get_or (set table m.index (some m)) j none ≡ some m) same
            (get_or-set_self table m.index (some m) none (omega arith)) in
        (
          m,
          written,
          inr (elim placed [
            | inl above ↦ let below = get_elem?-lt parent i p e in absurd (omega arith)
            | inr (q, at_m, o) ↦
                let e' : get_elem? parent m.index ≡ some p = rw same e in
                subst (λ r. Overrides m r) (some-injective _ _ (sym at_m ∙ e')) o
          ]),
        )
  ],
)

pub fill_table-Covers :
    (parent : List Method) (count : ℕ) (methods : List Method) (table : List (Option Method))
    → All (Placed parent count) methods
    → Covers parent count table
    → Covers parent count (fill_table methods table)
unfolding fill_table
fill_table-Covers parent count [] table a c = c
fill_table-Covers parent count (m ∷ methods) table a c = elim (Bool-cases (is_direct m)) [
  | inl y ↦ rw (fill_table, y) (fill_table-Covers parent count methods table a.1 c)
  | inr f ↦
      rw (fill_table, f)
        (fill_table-Covers parent count methods (set table m.index (some m)) a.1
          (set-Covers parent count table m c (a.0 f)))
]

-- A virtual method of the class stands at the index `i`.
abbrev pub Held : List Method → List (Option Method) → ℕ → Type 0
Held methods table i =
    (k : ℕ) × (m : Method) × (get_elem? methods k ≡ some m)
    × (is_direct m ≡ false)
    × (m.index ≡ i)
    × (get_or table i none ≡ some m)

-- With one more method in front.
Held-cons :
    (m : Method) (methods : List Method) (table : List (Option Method)) (i : ℕ)
    → Held methods table i
    → Held (m ∷ methods) table i
Held-cons m methods table i (k, q, e, f, x, t) = (suc k, q, e, f, x, t)

-- Behind the write of the first method.
fill_table-written :
    (m : Method) (methods : List Method) (table : List (Option Method)) (i : ℕ)
    → i < length table
    → is_direct m ≡ false
    → (get_or (fill_table methods (set table m.index (some m))) i none
        ≡ get_or (set table m.index (some m)) i none)
      ⊎ Held methods (fill_table methods (set table m.index (some m))) i
    → (get_or (fill_table methods (set table m.index (some m))) i none ≡ get_or table i none)
      ⊎ Held (m ∷ methods) (fill_table methods (set table m.index (some m))) i
fill_table-written m methods table i l f (inr h) = inr (Held-cons m methods _ i h)
fill_table-written m methods table i l f (inl e) = elim (Bool-cases (m.index == i)) [
  | inr n ↦
      let away : m.index ≢ i = ground arith in
      inl (e ∙ get_or-set_ne table m.index i (some m) none away)
  | inl y ↦
      let same : m.index ≡ i = ground arith in
      let written : get_or (set table m.index (some m)) i none ≡ some m =
        subst (λ j. get_or (set table m.index (some m)) j none ≡ some m) same
          (get_or-set_self table m.index (some m) none (omega arith)) in
      inr (0, m, refl, f, same, e ∙ written)
]

fill_table-kept :
    (methods : List Method) (table : List (Option Method)) (i : ℕ)
    → i < length table
    → (get_or (fill_table methods table) i none ≡ get_or table i none)
      ⊎ Held methods (fill_table methods table) i
unfolding fill_table
fill_table-kept [] table i l = inl refl
fill_table-kept (m ∷ methods) table i l = elim (Bool-cases (is_direct m)) [
  | inl y ↦
      rw (fill_table, y)
        (elim (fill_table-kept methods table i l) [
          | inl e ↦ inl e
          | inr h ↦ inr (Held-cons m methods (fill_table methods table) i h)
        ])
  | inr f ↦
      rw (fill_table, f)
        (fill_table-written m methods table i l f (
          fill_table-kept methods (set table m.index (some m)) i
            (omega (arith, length-set table m.index (some m)))))
]

fill_table-first :
    (m : Method) (methods : List Method) (table : List (Option Method))
    → is_direct m ≡ false
    → m.index < length table
    → Held (m ∷ methods) (fill_table (m ∷ methods) table) m.index
unfolding fill_table
fill_table-first m methods table f l =
    let next : List (Option Method) = set table m.index (some m) in
    rw (fill_table, f)
      (elim (fill_table-kept methods next m.index
        (omega (arith, length-set table m.index (some m)))) [
          | inl e ↦ (0, m, refl, f, refl, e ∙ get_or-set_self table m.index (some m) none l)
          | inr h ↦ Held-cons m methods _ m.index h
        ])

-- Every virtual method's index holds a virtual method of the class.
pub fill_table-Held :
    (methods : List Method) (table : List (Option Method)) (k : ℕ) (m : Method)
    → get_elem? methods k ≡ some m
    → is_direct m ≡ false
    → m.index < length table
    → Held methods (fill_table methods table) m.index
unfolding fill_table
fill_table-Held [] table k m e f l = absurd (let a = e in cc)
fill_table-Held (q ∷ methods) table zero m e f l =
    let same : q ≡ m = some-injective _ _ e in
    let f' : is_direct q ≡ false = rw same f in
    let l' : q.index < length table = rw same l in
    subst (λ r. Held (q ∷ methods) (fill_table (q ∷ methods) table) r.index) same
      (fill_table-first q methods table f' l')
fill_table-Held (q ∷ methods) table (suc k) m e f l = elim (Bool-cases (is_direct q)) [
  | inl y ↦
      rw (fill_table, y) (Held-cons q methods _ m.index (fill_table-Held methods table k m e f l))
  | inr n ↦
      rw (fill_table, n)
        (Held-cons q methods _ m.index (
          fill_table-Held methods (set table q.index (some q)) k m e f
            (omega (arith, length-set table q.index (some q)))))
]
