-- ===== src/Classes/Subtypes/Extends.antt =====
-- The way from a class to its parent for `bcl_is_assignable` of src/jelatine/loader.c.
use jelatine.Common.{
  ℕ, zero, suc, ◌<◌, ◌≤◌, ◌≡◌, refl, ◌≢◌, inl, inr, Bool, true, false, ◌||◌, some, ◌==◌, Bool-cases,
  ==-refl, arith,
}
use jelatine.Collector.{pt_reference}
use jelatine.Classes.Hierarchy.{
  class_is_array, class_is_interface, im_is_present, climb, present_in, bcl_is_assignable,
}
use jelatine.Classes.Linking.Interfaces.{managed, inherited}
use jelatine.Classes.Linking.Order.{Hierarchy, IsHierarchy}
use jelatine.Classes.Subtypes.Views.{FileView, view}
use jelatine.Classes.Subtypes.Parents.{interface-parent, class-parent}
use jelatine.Classes.Subtypes.Sound.{elements-Before, present_in-managed}
use jelatine.Classes.Subtypes.Complete.{
  interface_dest, object_complete, object-only, inherited-parent,
}

from_left : {a b : Bool} (c : Bool) → a ≡ (b || c) → b ≡ true → a ≡ true
from_left c e t = ground arith

pub from_right : {a c : Bool} (b : Bool) → a ≡ (b || c) → c ≡ true → a ≡ true
from_right b e t = ground arith

module _ (fp : Bool) (object : ℕ) (h : Hierarchy) (w : IsHierarchy fp object h) where
  climb-step :
      (fuel c d : ℕ)
      → ((h.classes c).parent == 0) ≡ false
      → ((h.classes c).parent == d) ≡ false
      → climb fuel h.classes (h.classes c).parent d ≡ some true
      → climb (suc fuel) h.classes c d ≡ some true
  unfolding climb
  climb-step fuel c d z f e = rw (climb, z, f) e

  -- From the parent to a class that has a class as its parent.
  class-extends :
      (fuel c d : ℕ)
      → FileView h c
      → class_is_interface (h.classes c) ≡ false
      → (h.classes c).parent ≢ 0
      → bcl_is_assignable (suc fuel) h.classes (h.classes c).parent d ≡ some true
      → bcl_is_assignable (suc (suc fuel)) h.classes c d ≡ some true
  unfolding bcl_is_assignable climb
  class-extends fuel c d v jc nonzero e =
      let p : ℕ = (h.classes c).parent in
      let (x, j, b) = class-parent fp object h w c v jc nonzero in
      let a = v.0 in
      elim (Bool-cases (class_is_interface (h.classes d))) [
        | inl id ↦
            let e' : present_in (h.classes p).interface_manager d ≡ some true =
              rw (bcl_is_assignable, x, j, id) at e in
            let q : im_is_present (managed h.classes p) d ≡ true = present_in-managed h p d e' in
            let q' : im_is_present (inherited h.classes p) d ≡ true =
              rw (inherited-parent h.classes p nonzero) q in
            let r = v.6 d in interface_dest fp object h w (suc fuel) c d v id (from_left _ r q')
        | inr nd ↦ elim (Bool-cases (c == d)) [
          | inl y ↦ rw (bcl_is_assignable, a, jc, nd, y) refl
          | inr n ↦
              let z : (p == 0) ≡ false = ground arith in
              elim (Bool-cases (p == d)) [
                | inl t ↦ rw (bcl_is_assignable, a, jc, nd, n, climb, z, t) refl
                | inr f ↦
                    let e' : climb (suc fuel) h.classes p d ≡ some true =
                      rw (bcl_is_assignable, x, j, nd, f) at e in
                    rw (bcl_is_assignable, a, jc, nd, n) (climb-step (suc fuel) c d z f e')
              ]
        ]
      ]

  of_object :
      (fuel c d : ℕ)
      → h.turn c ≢ 0
      → h.turn c ≤ suc fuel
      → (h.classes c).parent ≡ object
      → ((n : ℕ)
          → h.turn (h.classes c).parent ≤ n
          → bcl_is_assignable n h.classes (h.classes c).parent d ≡ some true)
      → bcl_is_assignable (suc fuel) h.classes c d ≡ some true
  of_object fuel c d old l p e =
      let e' : (n : ℕ) → h.turn object ≤ n → bcl_is_assignable n h.classes object d ≡ some true =
        rw p at e in
      let r = w.root in
      let same : d ≡ object = object-only fp object h w fuel d (e' (suc fuel) (omega arith)) in
      rw same (object_complete fp object h w fuel c old l)

  with_fuel :
      (fuel c d : ℕ)
      → FileView h c
      → class_is_interface (h.classes c) ≡ false
      → (h.classes c).parent ≢ 0
      → 0 < fuel
      → bcl_is_assignable fuel h.classes (h.classes c).parent d ≡ some true
      → bcl_is_assignable (suc fuel) h.classes c d ≡ some true
  with_fuel zero c d v jc nonzero l e = absurd (omega arith)
  with_fuel (suc fuel) c d v jc nonzero l e = class-extends fuel c d v jc nonzero e

  -- From the parent, to which the way is `e`, for every linked class.
  pub extends_complete :
      (fuel c d : ℕ)
      → h.turn c ≢ 0
      → h.turn c ≤ suc fuel
      → (h.classes c).parent ≢ 0
      → ((n : ℕ)
          → h.turn (h.classes c).parent ≤ n
          → bcl_is_assignable n h.classes (h.classes c).parent d ≡ some true)
      → bcl_is_assignable (suc fuel) h.classes c d ≡ some true
  extends_complete fuel c d old l nonzero e = elim (view fp object h c w old) [
    | inl (a, p, m, none_declared, before) ↦ of_object fuel c d old l p e
    | inr v ↦ elim (Bool-cases (class_is_interface (h.classes c))) [
      | inl ic ↦ of_object fuel c d old l (interface-parent fp object h w c v ic) e
      | inr jc ↦
          let (x, j, b) = class-parent fp object h w c v jc nonzero in
          let b0 = b.0 in
          let b1 = b.1 in with_fuel fuel c d v jc nonzero (omega arith) (e fuel (omega arith))
    ]
  ]

  pub refl_complete :
      (fuel c : ℕ)
      → h.turn c ≢ 0
      → h.turn c ≤ fuel
      → bcl_is_assignable fuel h.classes c c ≡ some true
  unfolding bcl_is_assignable
  refl_complete zero c old l = absurd (omega arith)
  refl_complete (suc fuel) c old l =
      let s = h.classes in
      let y = ==-refl c in
      elim (Bool-cases (class_is_array (s c))) [
        | inl ac ↦ elim (Bool-cases ((s c).elem_type == pt_reference)) [
          | inl r ↦
              let rc : (s c).elem_type ≡ pt_reference = ground arith in
              let b = elements-Before fp object h w c old ac rc in
              let b0 = b.0 in
              let b1 = b.1 in
              rw (bcl_is_assignable, ac, r) (refl_complete fuel (s c).elem_class b.0 (omega arith))
          | inr n ↦ rw (bcl_is_assignable, ac, n, ==-refl (s c).elem_type) refl
        ]
        | inr nc ↦ elim (Bool-cases (class_is_interface (s c))) [
          | inl ic ↦ rw (bcl_is_assignable, nc, ic, y) refl
          | inr jc ↦ rw (bcl_is_assignable, nc, jc, y) refl
        ]
      ]
