-- ===== src/Classes/Subtypes/Parents.antt =====
-- What the checks of `derive_class` of src/jelatine/loader.c make of the parents of linked classes.
use jelatine.Common.{
  ℕ, ◌≡◌, refl, ◌≢◌, inl, inr, Bool, true, false, ◌||◌, none, List, [], ◌∷◌, All, arith, ap, ◌∙◌,
  sym,
}
use jelatine.Methods.{has_flag}
use jelatine.Classes.Hierarchy.{
  Store, acc_interface, class_is_array, class_is_interface, im_is_present,
}
use jelatine.Classes.Linking.{parent_sound}
use jelatine.Classes.Linking.Interfaces.{managed, inherited, reached, im_is_present-nil}
use jelatine.Classes.Linking.Order.{Hierarchy, Before, IsHierarchy}
use jelatine.Classes.Subtypes.{declared}
use jelatine.Classes.Subtypes.Views.{FileView, view}

parent_sound-top :
    (s : Store) (flags : ℕ) → parent_sound s flags 0 ≡ true → has_flag flags acc_interface ≡ false
unfolding parent_sound
parent_sound-top s flags h = ground arith

parent_sound-interface :
    (s : Store) (flags p : ℕ)
    → parent_sound s flags p ≡ true
    → has_flag flags acc_interface ≡ true
    → (p ≢ 0) × ((s p).parent ≡ 0)
unfolding parent_sound
parent_sound-interface s flags p h i = (λ z. ground arith, ground arith)

parent_sound-class :
    (s : Store) (flags p : ℕ)
    → parent_sound s flags p ≡ true
    → has_flag flags acc_interface ≡ false
    → p ≢ 0
    → (class_is_array (s p) ≡ false) × (class_is_interface (s p) ≡ false)
unfolding parent_sound
parent_sound-class s flags p h i n = (ground arith, ground arith)

nothing-Before : (h : Hierarchy) (xs : List ℕ) → All (Before h 1) xs → xs ≡ []
nothing-Before h [] a = refl
nothing-Before h (x ∷ xs) a = let b = a.0 in absurd (omega (arith, b.0, b.1))

module _ (fp : Bool) (object : ℕ) (h : Hierarchy) (w : IsHierarchy fp object h) where
  pub object-linked : h.turn object ≢ 0
  object-linked z = let r = w.root in omega arith

  pub object_nonzero : object ≢ 0
  object_nonzero z = object-linked (ap h.turn z ∙ w.null)

  -- Object is a class without interfaces.
  pub object-view :
      (class_is_array (h.classes object) ≡ false)
      × (class_is_interface (h.classes object) ≡ false)
      × ((h.classes object).interface_manager ≢ none)
      × ((d : ℕ) → im_is_present (managed h.classes object) d ≡ false)
  object-view = elim (view fp object h object w object-linked) [
    | inl (a, p, m, none_declared, r) ↦ absurd (object_nonzero (sym p ∙ w.top))
    | inr (a, parent, sound, before, all, some_im, present) ↦
        let before' : All (Before h 1) (declared (h.requests object)) = rw (w.root) at before in
        let sound' : parent_sound h.classes (h.classes object).access_flags 0 ≡ true =
          rw (w.top) at sound in
        (
          a,
          parent_sound-top h.classes _ sound',
          some_im,
          λ d.
              let e = present d in
              let e' : im_is_present (managed h.classes object) d
                  ≡ (im_is_present (inherited h.classes 0) d || reached h.classes [] d) =
                rw (w.top, nothing-Before h _ before') at e in
              ground (arith, im_is_present-nil d),
        )
  ]

  -- An interface has Object as its parent.
  pub interface-parent :
      (c : ℕ)
      → FileView h c
      → class_is_interface (h.classes c) ≡ true
      → (h.classes c).parent ≡ object
  interface-parent c (a, parent, sound, before, all, some_im, present) i =
      let (nonzero, top) = parent_sound-interface h.classes _ (h.classes c).parent sound i in
      let (loads, refs, root, late) = w.linked (h.classes c).parent (parent nonzero).0 in root top

  -- A class has a class as its parent, unless it is Object.
  pub class-parent :
      (c : ℕ)
      → FileView h c
      → class_is_interface (h.classes c) ≡ false
      → (h.classes c).parent ≢ 0
      → (class_is_array (h.classes (h.classes c).parent) ≡ false)
        × (class_is_interface (h.classes (h.classes c).parent) ≡ false)
        × Before h (h.turn c) (h.classes c).parent
  class-parent c (a, parent, sound, before, all, some_im, present) i nonzero =
      let (x, y) = parent_sound-class h.classes _ (h.classes c).parent sound i nonzero in
      (x, y, parent nonzero)

  pub parent-linked :
      (c : ℕ) → h.turn c ≢ 0 → (h.classes c).parent ≢ 0 → h.turn (h.classes c).parent ≢ 0
  parent-linked c old nonzero = elim (view fp object h c w old) [
    | inl (a, p, m, none_declared, before) ↦ rw p object-linked
    | inr v ↦ (v.1 nonzero).0
  ]

  pub linked-view : (c : ℕ) → h.turn c ≢ 0 → class_is_array (h.classes c) ≡ false → FileView h c
  linked-view c old n = elim (view fp object h c w old) [
    | inl (a, p, m, none_declared, before) ↦ absurd (let b = a in cc)
    | inr v ↦ v
  ]
