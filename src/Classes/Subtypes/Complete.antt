-- ===== src/Classes/Subtypes/Complete.antt =====
-- Every subtype is found by `bcl_is_assignable` of src/jelatine/loader.c, on enough fuel.
use jelatine.Common.{
  ℕ, zero, suc, ◌≤◌, ◌≡◌, refl, ◌≢◌, inl, inr, Bool, true, false, none, some, ◌==◌, Bool-cases,
  Option-cases, arith, ap,
}
use mathlib.Core.Option.{some-injective}
use jelatine.Classes.Hierarchy.{
  Store, class_is_array, class_is_interface, class_is_object, im_is_present, climb, present_in,
  bcl_is_assignable,
}
use jelatine.Classes.Linking.Interfaces.{managed, inherited}
use jelatine.Classes.Linking.Order.{Hierarchy, IsHierarchy}
use jelatine.Classes.Subtypes.Views.{FileView, view}
use jelatine.Classes.Subtypes.Parents.{object-view, class-parent}
use jelatine.Classes.Subtypes.Sound.{present_in-managed}

managed-present_in :
    (h : Hierarchy) (c d : ℕ)
    → (h.classes c).interface_manager ≢ none
    → im_is_present (managed h.classes c) d ≡ true
    → present_in (h.classes c).interface_manager d ≡ some true
managed-present_in h c d n e = elim (Option-cases (h.classes c).interface_manager) [
  | inl m ↦ absurd (n m)
  | inr (im, m) ↦ let e' : im_is_present im d ≡ true = rw m at e in rw m (ap some e')
]

pub inherited-parent : (s : Store) (p : ℕ) → p ≢ 0 → inherited s p ≡ managed s p
inherited-parent s p n = let f : (p == 0) ≡ false = ground arith in rw f refl

module _ (fp : Bool) (object : ℕ) (h : Hierarchy) (w : IsHierarchy fp object h) where
  pub interface_dest :
      (fuel c d : ℕ)
      → FileView h c
      → class_is_interface (h.classes d) ≡ true
      → im_is_present (managed h.classes c) d ≡ true
      → bcl_is_assignable (suc fuel) h.classes c d ≡ some true
  unfolding bcl_is_assignable
  interface_dest fuel c d (a, parent, sound, before, all, some_im, present) i e =
      let held = managed-present_in h c d some_im e in
      elim (Bool-cases (class_is_interface (h.classes c))) [
        | inl ic ↦ elim (Bool-cases (c == d)) [
          | inl y ↦ rw (bcl_is_assignable, a, ic, i, y) refl
          | inr n ↦ rw (bcl_is_assignable, a, ic, i, n) held
        ]
        | inr nc ↦ rw (bcl_is_assignable, a, nc, i) held
      ]

  climb-object :
      (fuel c : ℕ)
      → h.turn c ≢ 0
      → h.turn c ≤ fuel
      → class_is_array (h.classes c) ≡ false
      → class_is_interface (h.classes c) ≡ false
      → c ≢ object
      → climb fuel h.classes c object ≡ some true
  unfolding climb
  climb-object zero c old l a i away = absurd (omega arith)
  climb-object (suc fuel) c old l a i away =
      let p : ℕ = (h.classes c).parent in
      let nonzero : p ≢ 0 = λ z. away ((w.linked c old).2 z) in
      let n : (p == 0) ≡ false = ground arith in
      elim (Bool-cases (p == object)) [
        | inl y ↦ rw (climb, n, y) refl
        | inr f ↦ elim (view fp object h c w old) [
          | inl (y, q, m, none_declared, before) ↦ absurd (let b = a in cc)
          | inr v ↦
              let (x, j, b) = class-parent fp object h w c v i nonzero in
              let b0 = b.0 in
              let b1 = b.1 in
              rw (climb, n, f) (climb-object fuel p b.0 (omega arith) x j (ground arith))
        ]
      ]

  -- Every class is assignable to Object.
  pub object_complete :
      (fuel c : ℕ)
      → h.turn c ≢ 0
      → h.turn c ≤ suc fuel
      → bcl_is_assignable (suc fuel) h.classes c object ≡ some true
  unfolding bcl_is_assignable
  object_complete fuel c old l =
      let (a, i, some_im, nothing) = object-view fp object h w in
      let top : class_is_object (h.classes object) ≡ true = let t = w.top in ground arith in
      elim (Bool-cases (class_is_array (h.classes c))) [
        | inl ac ↦ rw (bcl_is_assignable, ac, a, i, top) refl
        | inr nc ↦ elim (Bool-cases (class_is_interface (h.classes c))) [
          | inl ic ↦ rw (bcl_is_assignable, nc, ic, i, top) refl
          | inr jc ↦ elim (Bool-cases (c == object)) [
            | inl y ↦ rw (bcl_is_assignable, nc, jc, i, y) refl
            | inr f ↦
                rw (bcl_is_assignable, nc, jc, i, f)
                  (climb-object (suc fuel) c old l nc jc (ground arith))
          ]
        ]
      ]

  -- Object is assignable to itself only.
  pub object-only :
      (fuel d : ℕ) → bcl_is_assignable (suc fuel) h.classes object d ≡ some true → d ≡ object
  unfolding bcl_is_assignable climb
  object-only fuel d e =
      let (a, i, some_im, nothing) = object-view fp object h w in
      elim (Bool-cases (class_is_interface (h.classes d))) [
        | inl id ↦
            let e' : present_in (h.classes object).interface_manager d ≡ some true =
              rw (bcl_is_assignable, a, i, id) at e in
            absurd (let b = present_in-managed h object d e' in let c = nothing d in cc)
        | inr nd ↦ elim (Bool-cases (object == d)) [
          | inl y ↦ ground arith
          | inr f ↦
              let z : ((h.classes object).parent == 0) ≡ true = let t = w.top in ground arith in
              let e' : some false ≡ some true =
                rw (bcl_is_assignable, a, i, nd, f, climb, z) at e in
              absurd (let b = some-injective _ _ e' in cc)
        ]
      ]
