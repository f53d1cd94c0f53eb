-- ===== src/Classes/Subtypes/Rules.antt =====
-- Every rule of the subtype relation holds of `bcl_is_assignable` of src/jelatine/loader.c.
use jelatine.Common.{
  ℕ, zero, suc, ◌≤◌, ◌≡◌, refl, ◌≢◌, ◌⊎◌, inl, inr, Bool, true, false, some, [], ◌==◌, Bool-cases,
  arith,
}
use mathlib.Core.Option.{some-injective}
use jelatine.Collector.{pt_reference}
use jelatine.Classes.Hierarchy.{
  class_is_array, class_is_interface, class_is_object, im_is_present, present_in, bcl_is_assignable,
}
use jelatine.Classes.Linking.Interfaces.{managed, im_is_present-nil}
use jelatine.Classes.Linking.Order.{Hierarchy, IsHierarchy}
use jelatine.Classes.Subtypes.{Subtype, declared}
use jelatine.Classes.Subtypes.Views.{FileView, view, All-present, present-reached}
use jelatine.Classes.Subtypes.Parents.{parent-linked}
use jelatine.Classes.Subtypes.Sound.{elements-Before, present_in-managed}
use jelatine.Classes.Subtypes.Extends.{from_right, refl_complete, extends_complete}
use jelatine.Classes.Subtypes.Complete.{interface_dest, object_complete}

module _ (fp : Bool) (object : ℕ) (h : Hierarchy) (w : IsHierarchy fp object h) where
  -- An interface is assignable to itself, what it holds, and Object.
  interface-inverse :
      (fuel i d : ℕ)
      → class_is_array (h.classes i) ≡ false
      → class_is_interface (h.classes i) ≡ true
      → class_is_interface (h.classes d) ≡ true
      → bcl_is_assignable (suc fuel) h.classes i d ≡ some true
      → (i ≡ d) ⊎ (im_is_present (managed h.classes i) d ≡ true)
  unfolding bcl_is_assignable
  interface-inverse fuel i d a ii id e = elim (Bool-cases (i == d)) [
    | inl y ↦ inl (ground arith)
    | inr n ↦
        let e' : present_in (h.classes i).interface_manager d ≡ some true =
          rw (bcl_is_assignable, a, ii, id, n) at e in
        inr (present_in-managed h i d e')
  ]

  interface-object :
      (fuel i d : ℕ)
      → class_is_array (h.classes i) ≡ false
      → class_is_interface (h.classes i) ≡ true
      → class_is_interface (h.classes d) ≡ false
      → h.turn d ≢ 0
      → bcl_is_assignable (suc fuel) h.classes i d ≡ some true
      → d ≡ object
  unfolding bcl_is_assignable
  interface-object fuel i d a ii nd old e =
      let e' : some (class_is_object (h.classes d)) ≡ some true =
        rw (bcl_is_assignable, a, ii, nd) at e in
      let top = some-injective _ _ e' in (w.linked d old).2 (ground arith)

  implements-file :
      (fuel c d i : ℕ)
      → FileView h c
      → h.turn c ≢ 0
      → h.turn d ≢ 0
      → h.turn c ≤ suc fuel
      → im_is_present (declared (h.requests c)) i ≡ true
      → class_is_array (h.classes i) ≡ false
      → class_is_interface (h.classes i) ≡ true
      → bcl_is_assignable (suc fuel) h.classes i d ≡ some true
      → bcl_is_assignable (suc fuel) h.classes c d ≡ some true
  implements-file fuel c d i v old_c old_d l m a ii e =
      elim (Bool-cases (class_is_interface (h.classes d))) [
        | inl id ↦
            let r =
              present-reached h.classes (declared (h.requests c)) i d m
                (interface-inverse fuel i d a ii id e) in
            interface_dest fp object h w fuel c d v id (from_right _ (v.6 d) r)
        | inr nd ↦
            let same = interface-object fuel i d a ii nd old_d e in
            rw same (object_complete fp object h w fuel c old_c l)
      ]

  implements_complete :
      (fuel c d i : ℕ)
      → h.turn c ≢ 0
      → h.turn d ≢ 0
      → h.turn c ≤ suc fuel
      → im_is_present (declared (h.requests c)) i ≡ true
      → ((n : ℕ) → h.turn i ≢ 0 → h.turn i ≤ n → bcl_is_assignable n h.classes i d ≡ some true)
      → bcl_is_assignable (suc fuel) h.classes c d ≡ some true
  implements_complete fuel c d i old_c old_d l m e = elim (view fp object h c w old_c) [
    | inl (a, p, n, none_declared, before) ↦
        let m' : im_is_present [] i ≡ true = rw none_declared at m in
        absurd (let b = im_is_present-nil i in cc)
    | inr v ↦
        let b = All-present _ _ i v.3 m in
        let b0 = b.0 in
        let b1 = b.1 in
        let (ii, some_im) = All-present _ _ i v.4 m in
        elim (view fp object h i w b.0) [
          | inl (a, p, n, none_declared, before) ↦ absurd (some_im n)
          | inr u ↦
              implements-file fuel c d i v old_c old_d l m u.0 ii (e (suc fuel) b.0 (omega arith))
        ]
  ]

  covariant_complete :
      (fuel c d : ℕ)
      → class_is_array (h.classes c) ≡ true
      → class_is_array (h.classes d) ≡ true
      → (h.classes c).elem_type ≡ pt_reference
      → (h.classes d).elem_type ≡ pt_reference
      → bcl_is_assignable fuel h.classes (h.classes c).elem_class (h.classes d).elem_class
        ≡ some true
      → bcl_is_assignable (suc fuel) h.classes c d ≡ some true
  unfolding bcl_is_assignable
  covariant_complete fuel c d ac ad rc rd e =
      let yc : ((h.classes c).elem_type == pt_reference) ≡ true = ground arith in
      let yd : ((h.classes d).elem_type == pt_reference) ≡ true = ground arith in
      rw (bcl_is_assignable, ac, ad, yc, yd) e

  primitive_complete :
      (fuel c d : ℕ)
      → class_is_array (h.classes c) ≡ true
      → class_is_array (h.classes d) ≡ true
      → (h.classes c).elem_type ≡ (h.classes d).elem_type
      → (h.classes c).elem_type ≢ pt_reference
      → bcl_is_assignable (suc fuel) h.classes c d ≡ some true
  unfolding bcl_is_assignable
  primitive_complete fuel c d ac ad same n =
      let yc : ((h.classes c).elem_type == pt_reference) ≡ false = ground arith in
      let y : ((h.classes c).elem_type == (h.classes d).elem_type) ≡ true = ground arith in
      rw (bcl_is_assignable, ac, ad, yc, y) refl

  pub complete :
      (c d : ℕ)
      → Subtype h c d
      → h.turn c ≢ 0
      → h.turn d ≢ 0
      → (fuel : ℕ) → h.turn c ≤ fuel
      → bcl_is_assignable fuel h.classes c d ≡ some true
  complete c d _ old_c old_d zero l = absurd (omega arith)
  complete _ _ (Subtype.same c) old_c old_d fuel l = refl_complete fp object h w fuel c old_c l
  complete _ _ (Subtype.extends c d nonzero s) old_c old_d (suc fuel) l =
      extends_complete fp object h w fuel c d old_c l nonzero
        (λ n below. complete _ _ s (parent-linked fp object h w c old_c nonzero) old_d n below)
  complete _ _ (Subtype.implements c d i m s) old_c old_d (suc fuel) l =
      implements_complete fuel c d i old_c old_d l m
        (λ n old below. complete _ _ s old old_d n below)
  complete _ _ (Subtype.covariant c d ac ad rc rd s) old_c old_d (suc fuel) l =
      let x = elements-Before fp object h w c old_c ac rc in
      let y = elements-Before fp object h w d old_d ad rd in
      let x1 = x.1 in
      covariant_complete fuel c d ac ad rc rd (complete _ _ s x.0 y.0 fuel (omega arith))
  complete _ _ (Subtype.primitive c d ac ad same n) old_c old_d (suc fuel) l =
      primitive_complete fuel c d ac ad same n
