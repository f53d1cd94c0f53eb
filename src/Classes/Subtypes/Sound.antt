-- ===== src/Classes/Subtypes/Sound.antt =====
-- When `bcl_is_assignable` of src/jelatine/loader.c says yes, the one class is a subtype of the other.
use jelatine.Common.{
  ℕ, zero, suc, ◌≤◌, ◌≡◌, ◌≢◌, inl, inr, Bool, true, false, ◌&&◌, ◌||◌, none, some, [], ◌==◌,
  if◌then◌else◌, Bool-cases, Option-cases, arith, ap, ◌∙◌, sym,
}
use mathlib.Core.Path.{subst}
use mathlib.Core.Option.{some-injective}
use jelatine.Collector.{pt_reference}
use jelatine.Classes.Hierarchy.{
  Store, class_is_array, class_is_interface, class_is_object, im_is_present, climb, present_in,
  bcl_is_assignable,
}
use jelatine.Classes.Linking.Interfaces.{managed, inherited, reached, im_is_present-nil}
use jelatine.Classes.Linking.Order.{Hierarchy, Before, IsHierarchy}
use jelatine.Classes.Subtypes.{Subtype, declared}
use jelatine.Classes.Subtypes.Parents.{interface-parent}
use jelatine.Classes.Subtypes.Views.{FileView, view, All-present, reached-present}

pub present_in-managed :
    (h : Hierarchy) (c d : ℕ)
    → present_in (h.classes c).interface_manager d ≡ some true
    → im_is_present (managed h.classes c) d ≡ true
present_in-managed h c d e = elim (Option-cases (h.classes c).interface_manager) [
  | inl n ↦ let e' : none ≡ some true = rw n at e in absurd (let b = e' in cc)
  | inr (im, m) ↦
      let e' : some (im_is_present im d) ≡ some true = rw m at e in rw m (some-injective _ _ e')
]

or-left : {a b c : Bool} → a ≡ (b || c) → a ≡ true → c ≡ false → b ≡ true
or-left e t f = ground arith

inherited-present :
    (s : Store) (p d : ℕ)
    → im_is_present (inherited s p) d ≡ true
    → (p ≢ 0) × (im_is_present (managed s p) d ≡ true)
inherited-present s p d e = elim (Bool-cases (p == 0)) [
  | inl z ↦
      let e' : im_is_present [] d ≡ true = rw z at e in absurd (let b = im_is_present-nil d in cc)
  | inr f ↦ let e' : im_is_present (managed s p) d ≡ true = rw f at e in (ground arith, e')
]

-- What a class from a class-file has collected, when that is so for the classes linked before it.
file-Subtype :
    (h : Hierarchy) (c d : ℕ)
    → FileView h c
    → im_is_present (managed h.classes c) d ≡ true
    → ((x : ℕ)
        → Before h (h.turn c) x
        → im_is_present (managed h.classes x) d ≡ true
        → Subtype h x d)
    → Subtype h c d
file-Subtype h c d (a, parent, sound, before, all, some_im, present) e ih =
    elim (Bool-cases (reached h.classes (declared (h.requests c)) d)) [
      | inl r ↦
          let (i, m, found) = reached-present h.classes (declared (h.requests c)) d r in
          Subtype.implements c d i m (elim found [
            | inl same ↦ subst (λ x. Subtype h i x) same (Subtype.same i)
            | inr held ↦ ih i (All-present _ _ i before m) held
          ])
      | inr n ↦
          let from = inherited-present h.classes (h.classes c).parent d (or-left (present d) e n) in
          Subtype.extends c d from.0 (ih (h.classes c).parent (parent from.0) from.1)
    ]

module _ (fp : Bool) (object : ℕ) (h : Hierarchy) (w : IsHierarchy fp object h) where
  -- What an interface manager holds.
  managed-Subtype :
      (fuel c d : ℕ)
      → h.turn c ≢ 0
      → h.turn c ≤ fuel
      → im_is_present (managed h.classes c) d ≡ true
      → Subtype h c d
  managed-Subtype zero c d old l e = absurd (omega arith)
  managed-Subtype (suc fuel) c d old l e = elim (view fp object h c w old) [
    | inl (a, p, m, none_declared, r) ↦
        let e' : im_is_present [] d ≡ true = rw m at e in absurd (let b = im_is_present-nil d in cc)
    | inr v ↦ file-Subtype h c d v e (λ x b m. managed-Subtype fuel x d b.0 (omega (arith, b.1)) m)
  ]

  climb-Subtype : (fuel c d : ℕ) → climb fuel h.classes c d ≡ some true → Subtype h c d
  unfolding climb
  climb-Subtype zero c d e = absurd (let b = e in cc)
  climb-Subtype (suc fuel) c d e = elim (Bool-cases ((h.classes c).parent == 0)) [
    | inl z ↦
        let e' : some false ≡ some true = rw (climb, z) at e in
        absurd (let b = some-injective _ _ e' in cc)
    | inr n ↦ elim (Bool-cases ((h.classes c).parent == d)) [
      | inl y ↦
          let same : (h.classes c).parent ≡ d = ground arith in
          Subtype.extends c d (ground arith) (rw same (Subtype.same d))
      | inr f ↦
          let e' : climb fuel h.classes (h.classes c).parent d ≡ some true =
            rw (climb, n, f) at e in
          Subtype.extends c d (ground arith) (climb-Subtype fuel (h.classes c).parent d e')
    ]
  ]

  -- By the cases of the code.
  interface-Subtype :
      (c d : ℕ)
      → h.turn c ≢ 0
      → (if c == d then some true else present_in (h.classes c).interface_manager d) ≡ some true
      → Subtype h c d
  interface-Subtype c d old e = elim (Bool-cases (c == d)) [
    | inl y ↦ let same : c ≡ d = ground arith in subst (λ x. Subtype h c x) same (Subtype.same c)
    | inr f ↦
        let e' : present_in (h.classes c).interface_manager d ≡ some true = rw f at e in
        managed-Subtype (h.turn c) c d old (omega arith) (present_in-managed h c d e')
  ]

  class-Subtype :
      (fuel c d : ℕ)
      → (if c == d then some true else climb fuel h.classes c d) ≡ some true
      → Subtype h c d
  class-Subtype fuel c d e = elim (Bool-cases (c == d)) [
    | inl y ↦ let same : c ≡ d = ground arith in subst (λ x. Subtype h c x) same (Subtype.same c)
    | inr f ↦ let e' : climb fuel h.classes c d ≡ some true = rw f at e in climb-Subtype fuel c d e'
  ]

  -- Arrays and interfaces are Objects.
  object-Subtype :
      (c d : ℕ)
      → h.turn d ≢ 0
      → (h.classes c).parent ≡ object
      → some (class_is_object (h.classes d)) ≡ some true
      → Subtype h c d
  object-Subtype c d old p e =
      let (loads, refs, root, late) = w.linked d old in
      let top = some-injective _ _ e in
      let same : d ≡ object = root (ground arith) in
      let root_turn = w.root in
      let nonzero : object ≢ 0 =
        λ z. let t : h.turn object ≡ 0 = ap h.turn z ∙ w.null in omega arith in
      Subtype.extends c d (λ z. nonzero (sym p ∙ z))
        (subst (λ x. Subtype h (h.classes c).parent x) (p ∙ sym same)
          (Subtype.same (h.classes c).parent))

  pub elements-Before :
      (c : ℕ)
      → h.turn c ≢ 0
      → class_is_array (h.classes c) ≡ true
      → (h.classes c).elem_type ≡ pt_reference
      → Before h (h.turn c) (h.classes c).elem_class
  elements-Before c old y r = elim (view fp object h c w old) [
    | inl (a, p, m, none_declared, before) ↦ before r
    | inr (a, parent, sound, before, all, some_im, present) ↦ absurd (let b = a in cc)
  ]

  array-parent :
      (c : ℕ) → h.turn c ≢ 0 → class_is_array (h.classes c) ≡ true → (h.classes c).parent ≡ object
  array-parent c old y = elim (view fp object h c w old) [
    | inl (a, p, m, none_declared, before) ↦ p
    | inr (a, parent, sound, before, all, some_im, present) ↦ absurd (let b = a in cc)
  ]

  interface-parent' :
      (c : ℕ)
      → h.turn c ≢ 0
      → class_is_interface (h.classes c) ≡ true
      → (h.classes c).parent ≡ object
  interface-parent' c old i = elim (view fp object h c w old) [
    | inl (a, p, m, none_declared, before) ↦ p
    | inr v ↦ interface-parent fp object h w c v i
  ]

  pub bcl_is_assignable-Subtype :
      (fuel c d : ℕ)
      → h.turn c ≢ 0
      → h.turn d ≢ 0
      → bcl_is_assignable fuel h.classes c d ≡ some true
      → Subtype h c d
  unfolding bcl_is_assignable
  bcl_is_assignable-Subtype zero c d old_c old_d e = absurd (let b = e in cc)
  bcl_is_assignable-Subtype (suc fuel) c d old_c old_d e =
      let s = h.classes in
      elim (Bool-cases (class_is_array (s c))) [
        | inl ac ↦ elim (Bool-cases (class_is_array (s d))) [
          | inl ad ↦
              elim (Bool-cases
                (((s c).elem_type == pt_reference) && ((s d).elem_type == pt_reference))) [
                  | inl both ↦
                      let rc : (s c).elem_type ≡ pt_reference = ground arith in
                      let rd : (s d).elem_type ≡ pt_reference = ground arith in
                      let e' : bcl_is_assignable fuel s (s c).elem_class (s d).elem_class
                          ≡ some true =
                        rw (bcl_is_assignable, ac, ad, both) at e in
                      Subtype.covariant c d ac ad rc rd (
                        bcl_is_assignable-Subtype fuel (s c).elem_class (s d).elem_class
                          (elements-Before c old_c ac rc).0 (elements-Before d old_d ad rd).0 e')
                  | inr other ↦
                      let e' : some ((s c).elem_type == (s d).elem_type) ≡ some true =
                        rw (bcl_is_assignable, ac, ad, other) at e in
                      let e'' = some-injective _ _ e' in
                      Subtype.primitive c d ac ad (ground arith) (ground arith)
                ]
          | inr nd ↦ elim (Bool-cases (class_is_interface (s d))) [
            | inl i ↦
                let e' : some false ≡ some true = rw (bcl_is_assignable, ac, nd, i) at e in
                absurd (let b = some-injective _ _ e' in cc)
            | inr n ↦
                let e' : some (class_is_object (s d)) ≡ some true =
                  rw (bcl_is_assignable, ac, nd, n) at e in
                object-Subtype c d old_d (array-parent c old_c ac) e'
          ]
        ]
        | inr nc ↦ elim (Bool-cases (class_is_interface (s c))) [
          | inl ic ↦ elim (Bool-cases (class_is_interface (s d))) [
            | inl i ↦
                let e' : (if c == d then some true else present_in (s c).interface_manager d)
                    ≡ some true =
                  rw (bcl_is_assignable, nc, ic, i) at e in
                interface-Subtype c d old_c e'
            | inr n ↦
                let e' : some (class_is_object (s d)) ≡ some true =
                  rw (bcl_is_assignable, nc, ic, n) at e in
                object-Subtype c d old_d (interface-parent' c old_c ic) e'
          ]
          | inr jc ↦ elim (Bool-cases (class_is_interface (s d))) [
            | inl i ↦
                let e' : present_in (s c).interface_manager d ≡ some true =
                  rw (bcl_is_assignable, nc, jc, i) at e in
                managed-Subtype (h.turn c) c d old_c (omega arith) (present_in-managed h c d e')
            | inr n ↦
                let e' : (if c == d then some true else climb (suc fuel) s c d) ≡ some true =
                  rw (bcl_is_assignable, nc, jc, n) at e in
                class-Subtype (suc fuel) c d e'
          ]
        ]
      ]
