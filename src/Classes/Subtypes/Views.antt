-- ===== src/Classes/Subtypes/Views.antt =====
-- What the invariant of the hierarchy gives for a linked class, an array or a class from a class-file.
use jelatine.Common.{
  ℕ, ◌≡◌, refl, ◌≢◌, ◌⊎◌, inl, inr, Bool, true, false, ◌||◌, none, List, [], ◌∷◌, ◌==◌, All,
  Bool-cases, arith, ◌∙◌,
}
use mathlib.Core.Path.{subst}
use jelatine.Collector.{pt_reference}
use jelatine.Descriptor.{at_place}
use jelatine.Classes.Hierarchy.{Store, class_is_array, im_is_present}
use jelatine.Classes.Linking.{ClassFile, parent_sound}
use jelatine.Classes.Linking.Interfaces.{
  managed, reached, Managed, inherited, load_interfaces-reached,
}
use jelatine.Classes.Linking.Checks.{elements, IsDerived, IsArrayClass, load_class-IsLinked}
use jelatine.Classes.Linking.Frame.{relatives, references}
use jelatine.Classes.Linking.Order.{Hierarchy, Before, IsHierarchy}
use jelatine.Classes.Subtypes.{declared}

pub All-present {κ} :
    (P : ℕ → Type κ) (xs : List ℕ) (i : ℕ) → All P xs → im_is_present xs i ≡ true → P i
unfolding im_is_present
All-present P [] i a h = absurd (let e = h in cc)
All-present P (x ∷ xs) i (a, rest) h = elim (Bool-cases (x == i)) [
  | inl y ↦ let e : x ≡ i = ground arith in subst P e a
  | inr f ↦ All-present P xs i rest (ground arith)
]

pub reached-present :
    (s : Store) (xs : List ℕ) (d : ℕ)
    → reached s xs d ≡ true
    → (i : ℕ) × (im_is_present xs i ≡ true) × ((i ≡ d) ⊎ (im_is_present (managed s i) d ≡ true))
unfolding im_is_present
reached-present s [] d h = absurd (let e = h in cc)
reached-present s (x ∷ xs) d h = elim (Bool-cases (x == d)) [
  | inl y ↦ (x, ground arith, inl (ground arith))
  | inr f ↦ elim (Bool-cases (im_is_present (managed s x) d)) [
    | inl m ↦ (x, ground arith, inr m)
    | inr n ↦ let (i, p, r) = reached-present s xs d (ground arith) in (i, ground arith, r)
  ]
]

pub present-reached :
    (s : Store) (xs : List ℕ) (i d : ℕ)
    → im_is_present xs i ≡ true
    → (i ≡ d) ⊎ (im_is_present (managed s i) d ≡ true)
    → reached s xs d ≡ true
unfolding im_is_present
present-reached s [] i d h r = absurd (let e = h in cc)
present-reached s (x ∷ xs) i d h r = elim (Bool-cases (x == i)) [
  | inl y ↦
      let e : x ≡ i = ground arith in
      let r' : (x ≡ d) ⊎ (im_is_present (managed s x) d ≡ true) = rw e r in ground arith
  | inr f ↦ ground (arith, present-reached s xs i d (ground arith) r)
]

-- A linked array class.
abbrev pub ArrayView : ℕ → Hierarchy → ℕ → Type 0
ArrayView object h c =
    (class_is_array (h.classes c) ≡ true)
    × ((h.classes c).parent ≡ object)
    × ((h.classes c).interface_manager ≡ none)
    × (declared (h.requests c) ≡ [])
    × ((h.classes c).elem_type ≡ pt_reference → Before h (h.turn c) (h.classes c).elem_class)

-- A linked class from a class-file.
abbrev pub FileView : Hierarchy → ℕ → Type 0
FileView h c =
    (class_is_array (h.classes c) ≡ false)
    × ((h.classes c).parent ≢ 0 → Before h (h.turn c) (h.classes c).parent)
    × (parent_sound h.classes (h.classes c).access_flags (h.classes c).parent ≡ true)
    × All (Before h (h.turn c)) (declared (h.requests c))
    × All (Managed h.classes) (declared (h.requests c))
    × ((h.classes c).interface_manager ≢ none)
    × ((d : ℕ)
        → im_is_present (managed h.classes c) d ≡ (
            im_is_present (inherited h.classes (h.classes c).parent) d
            || reached h.classes (declared (h.requests c)) d))

module _ (P : ℕ → Type 0) (file : ClassFile) (all : All P (relatives file)) where
  interfaces-relatives : All P file.interfaces
  interfaces-relatives = elim (Bool-cases (file.parent == 0)) [
    | inl z ↦ let a : All P file.interfaces = rw z at all in a
    | inr f ↦ let a : All P (file.parent ∷ file.interfaces) = rw f at all in a.1
  ]

  parent-relatives : file.parent ≢ 0 → P file.parent
  parent-relatives nonzero =
      let f : (file.parent == 0) ≡ false = ground arith in
      let a : All P (file.parent ∷ file.interfaces) = rw f at all in a.0

module _ (fp : Bool) (object : ℕ) (h : Hierarchy) (c : ℕ) where
  array-view :
      All (Before h (h.turn c)) (references (h.requests c))
      → at_place (h.requests c).name ≡ 91
      → IsArrayClass object (h.requests c) (h.classes c)
      → ArrayView object h c
  array-view refs name (a, p, m, e) =
      let y : (at_place (h.requests c).name == 91) ≡ true = ground arith in
      let refs' : All (Before h (h.turn c)) (elements (h.requests c)) = rw y at refs in
      (
        a,
        p,
        m,
        rw y refl,
        λ r.
            let (same, one) = e r in
            let held : All (Before h (h.turn c)) ((h.requests c).element ∷ []) = rw one at refs' in
            rw same held.0,
      )

  file-view :
      All (Before h (h.turn c)) (references (h.requests c))
      → at_place (h.requests c).name ≢ 91
      → IsDerived h.classes (h.requests c).file (h.classes c)
      → FileView h c
  file-view refs name (a, p, sound, (im, m, collected)) =
      let n : (at_place (h.requests c).name == 91) ≡ false = ground arith in
      let refs' : All (Before h (h.turn c)) (relatives (h.requests c).file) = rw n at refs in
      let (managed_all, present) =
        load_interfaces-reached h.classes (h.requests c).file.parent (h.requests c).file.interfaces
          im collected in
      rw (n, m)
        (
          a,
          λ nonzero. rw p (
              parent-relatives (Before h (h.turn c)) (h.requests c).file refs'
                (λ z. nonzero (p ∙ z))),
          sound,
          interfaces-relatives (Before h (h.turn c)) (h.requests c).file refs',
          managed_all,
          λ e. let b = e in cc,
          rw p present,
        )

  pub view : IsHierarchy fp object h → h.turn c ≢ 0 → ArrayView object h c ⊎ FileView h c
  view w old =
      let (loads, refs, root, late) = w.linked c old in
      elim (load_class-IsLinked fp h.classes object (h.requests c) (h.classes c) loads) [
        | inl (name, a) ↦ inl (array-view refs name a)
        | inr (name, d) ↦ inr (file-view refs name d)
      ]
