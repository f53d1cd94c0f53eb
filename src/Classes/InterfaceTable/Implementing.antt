-- ===== src/Classes/InterfaceTable/Implementing.antt =====
-- The methods of a class that implement those of its interfaces: the loop over the dispatch table in
-- `create_interface_dispatch_table` of src/jelatine/loader.c.
use jelatine.Common.{
  ℕ, zero, suc, ◌≡◌, ◌↔◌, ◌⊎◌, refl, sym, ap, ◌∙◌, inl, inr, true, some, List, [], ◌∷◌, get_elem?,
  Bool-cases, arith,
}
use mathlib.Core.Option.{some-injective}
use jelatine.Strings.Count.{same_chars_iff}
use jelatine.Methods.{Method}
use jelatine.Classes.Dispatch.{method_compare}
use jelatine.Classes.InterfaceTable.{implementation}

method_compare_iff :
    (a b : Method)
    → (method_compare a b ≡ true) ↔ ((a.name ≡ b.name) × (a.descriptor ≡ b.descriptor))
unfolding method_compare
method_compare_iff a b =
    let n = same_chars_iff a.name b.name in
    let m = same_chars_iff a.descriptor b.descriptor in
    (
      λ h. (n.0 (ground arith), m.0 (ground arith)),
      λ (x, y). let p = n.1 x in let q = m.1 y in ground arith,
    )

pub method_compare_refl : (a : Method) → method_compare a a ≡ true
method_compare_refl a = (method_compare_iff a a).1 (refl, refl)

pub method_compare-sym : (a b : Method) → method_compare a b ≡ true → method_compare b a ≡ true
method_compare-sym a b h =
    let e = (method_compare_iff a b).0 h in (method_compare_iff b a).1 (sym e.0, sym e.1)

pub method_compare_trans :
    (a b c : Method)
    → method_compare a b ≡ true
    → method_compare b c ≡ true
    → method_compare a c ≡ true
method_compare_trans a b c h k =
    let e = (method_compare_iff a b).0 h in
    let f = (method_compare_iff b c).0 k in (method_compare_iff a c).1 (e.0 ∙ f.0, e.1 ∙ f.1)

-- What implements a method has its name and descriptor.
pub method_compare-implementation :
    (m current : Method) (dtable : List Method)
    → method_compare m current ≡ true
    → method_compare m (implementation current dtable) ≡ true
unfolding implementation
method_compare-implementation m current [] h = h
method_compare-implementation m current (x ∷ dtable) h =
    elim (Bool-cases (method_compare current x)) [
      | inl y ↦
          rw (implementation, y)
            (method_compare-implementation m x dtable (method_compare_trans m current x h y))
      | inr n ↦ rw (implementation, n) (method_compare-implementation m current dtable h)
    ]

implementation-kept :
    (current : Method) (dtable : List Method)
    → (implementation current dtable ≡ current)
      ⊎ ((k : ℕ) × (get_elem? dtable k ≡ some (implementation current dtable)))
unfolding implementation
implementation-kept current [] = inl refl
implementation-kept current (x ∷ dtable) = elim (Bool-cases (method_compare current x)) [
  | inl y ↦
      rw (implementation, y)
        (elim (implementation-kept x dtable) [
          | inl e ↦ inr (0, ap some (sym e))
          | inr (k, e) ↦ inr (suc k, e)
        ])
  | inr n ↦
      rw (implementation, n)
        (elim (implementation-kept current dtable) [ inl e ↦ inl e | inr (k, e) ↦ inr (suc k, e) ])
]

-- A method that the class has is implemented by a method of its dispatch table.
pub implementation-found :
    (current x : Method) (dtable : List Method) (j : ℕ)
    → get_elem? dtable j ≡ some x
    → method_compare current x ≡ true
    → (k : ℕ) × (get_elem? dtable k ≡ some (implementation current dtable))
unfolding implementation
implementation-found current x [] j e h = absurd (let a = e in cc)
implementation-found current x (y ∷ dtable) zero e h =
    let same : y ≡ x = some-injective _ _ e in
    let t : method_compare current y ≡ true = rw same h in
    rw (implementation, t)
      (elim (implementation-kept y dtable) [
        | inl e' ↦ (0, ap some (sym e'))
        | inr (k, e') ↦ (suc k, e')
      ])
implementation-found current x (y ∷ dtable) (suc j) e h =
    elim (Bool-cases (method_compare current y)) [
      | inl t ↦
          let (k, e') =
            implementation-found y x dtable j e
              (method_compare_trans y current x (method_compare-sym current y t) h) in
          rw (implementation, t) (suc k, e')
      | inr f ↦
          let (k, e') = implementation-found current x dtable j e h in
          rw (implementation, f) (suc k, e')
    ]
