-- ===== src/Classes/Access/Accessible.antt =====
-- `class_is_parent` of src/jelatine/class.c, and the rules for the access to fields that
-- `verify_field_access` of src/jelatine/verifier.c applies.
use jelatine.Common.{
  ℕ, zero, suc, ◌≤◌, ◌≡◌, ◌≢◌, ◌↔◌, refl, sym, ap, ◌∙◌, ◌⊎◌, inl, inr, Bool, true, false, ◌||◌,
  some, ◌==◌, Bool-cases, arith,
}
use jelatine.Methods.{has_flag, acc_public, acc_private, acc_protected}
use jelatine.Descriptor.{at_place}
use jelatine.Classes.Hierarchy.{class_is_array, class_is_interface, class_is_parent}
use jelatine.Classes.Linking.Order.{
  Hierarchy, Before, IsHierarchy, Reach, OneRoot, Reach-IsHierarchy,
}
use jelatine.Classes.Subtypes.Parents.{object-view, interface-parent, class-parent, linked-view}
use jelatine.Classes.Access.{same_package, verify_field_access}
use jelatine.Classes.Access.Packages.{package_of, same_package-package_of}

-- The classes above a class.
pub data Ancestor (h : Hierarchy) (p : ℕ) : ℕ → Type 0 where
  parent : (c : ℕ) → (h.classes c).parent ≡ p → Ancestor h p c
  above : (c : ℕ) → (h.classes c).parent ≢ 0 → Ancestor h p (h.classes c).parent → Ancestor h p c

Ancestor-inverse :
    {h : Hierarchy} {p c : ℕ}
    → Ancestor h p c
    → ((h.classes c).parent ≡ p) ⊎ (((h.classes c).parent ≢ 0) × Ancestor h p (h.classes c).parent)
Ancestor-inverse (Ancestor.parent c e) = inl e
Ancestor-inverse (Ancestor.above c n a) = inr (n, a)

module _ (fp : Bool) (object : ℕ) (h : Hierarchy) (w : IsHierarchy fp object h) where
  -- The parent of a class from a class-file is one as well.
  regular-parent :
      (c : ℕ)
      → h.turn c ≢ 0
      → class_is_array (h.classes c) ≡ false
      → (h.classes c).parent ≢ 0
      → (class_is_array (h.classes (h.classes c).parent) ≡ false)
        × Before h (h.turn c) (h.classes c).parent
  regular-parent c old a nonzero =
      let v = linked-view fp object h w c old a in
      elim (Bool-cases (class_is_interface (h.classes c))) [
        | inl i ↦
            (rw (interface-parent fp object h w c v i) ((object-view fp object h w).0), v.1 nonzero)
        | inr n ↦ let (x, y, b) = class-parent fp object h w c v n nonzero in (x, b)
      ]

  class_is_parent-Ancestor :
      (fuel p c : ℕ)
      → p ≢ 0
      → h.turn c ≢ 0
      → h.turn c ≤ fuel
      → class_is_array (h.classes c) ≡ false
      → (b : Bool) × (class_is_parent fuel h.classes p c ≡ some b) × ((b ≡ true) ↔ Ancestor h p c)
  unfolding class_is_parent
  class_is_parent-Ancestor zero p c np old l a = absurd (omega arith)
  class_is_parent-Ancestor (suc fuel) p c np old l a =
      let q : ℕ = (h.classes c).parent in
      elim (Bool-cases (p == q)) [
        | inl y ↦
            (true, rw (class_is_parent, y) refl, (λ _. Ancestor.parent c (ground arith), λ _. refl))
        | inr n ↦ elim (Bool-cases (q == 0)) [
          | inl z ↦ (
            false,
            rw (class_is_parent, n, z) refl,
            (
              λ e. absurd (let b = e in cc),
              λ u. absurd (elim (Ancestor-inverse u) [
                | inl e ↦ ground arith
                | inr (m, v) ↦ m (ground arith)
              ]),
            ),
          )
          | inr f ↦
              let (x, before) = regular-parent c old a (ground arith) in
              let before0 = before.0 in
              let before1 = before.1 in
              let (b, e, (there, back)) =
                class_is_parent-Ancestor fuel p q np before.0 (omega arith) x in
              (
                b,
                rw (class_is_parent, n, f) e,
                (
                  λ t. Ancestor.above c (ground arith) (there t),
                  λ u. elim (Ancestor-inverse u) [
                    | inl k ↦ absurd (ground arith)
                    | inr (m, v) ↦ back v
                  ],
                ),
              )
        ]
      ]

-- Who may use a field with the flags of a class `cl`: the class itself, everyone for a public field,
-- the package for a field that is protected or has no access flag, and classes below for a protected one.
pub data Accessible (h : Hierarchy) (acl cl flags : ℕ) : Type 0 where
  own : acl ≡ cl → Accessible h acl cl flags
  everyone :
      has_flag flags acc_private ≡ false
      → has_flag flags acc_protected ≡ false
      → has_flag flags acc_public ≡ true
      → Accessible h acl cl flags
  inside :
      has_flag flags acc_private ≡ false
      → (has_flag flags acc_protected ≡ true) ⊎ (has_flag flags acc_public ≡ false)
      → package_of (h.classes cl).name ≡ package_of (h.classes acl).name
      → Accessible h acl cl flags
  below :
      has_flag flags acc_private ≡ false
      → has_flag flags acc_protected ≡ true
      → Ancestor h cl acl
      → Accessible h acl cl flags

or-cases : (a b : Bool) → (a || b) ≡ true → (a ≡ true) ⊎ (b ≡ true)
or-cases true b h = inl refl
or-cases false b h = inr h

module _ (h : Hierarchy) (acl cl flags : ℕ) where
  of_private : has_flag flags acc_private ≡ true → Accessible h acl cl flags → (acl == cl) ≡ true
  of_private p (Accessible.own e) = ground arith
  of_private p (Accessible.everyone n _ _) = absurd (let b = n in cc)
  of_private p (Accessible.inside n _ _) = absurd (let b = n in cc)
  of_private p (Accessible.below n _ _) = absurd (let b = n in cc)

  of_protected :
      has_flag flags acc_private ≡ false
      → has_flag flags acc_protected ≡ true
      → acl ≢ cl
      → Accessible h acl cl flags
      → Ancestor h cl acl ⊎ (package_of (h.classes cl).name ≡ package_of (h.classes acl).name)
  of_protected n p away (Accessible.own e) = absurd (away e)
  of_protected n p away (Accessible.everyone _ m _) = absurd (let b = m in cc)
  of_protected n p away (Accessible.inside _ _ e) = inr e
  of_protected n p away (Accessible.below _ _ a) = inl a

  of_package :
      has_flag flags acc_protected ≡ false
      → has_flag flags acc_public ≡ false
      → Accessible h acl cl flags
      → package_of (h.classes cl).name ≡ package_of (h.classes acl).name
  of_package n p (Accessible.own e) = ap (λ c. package_of (h.classes c).name) (sym e)
  of_package n p (Accessible.everyone _ _ m) = absurd (let b = m in cc)
  of_package n p (Accessible.inside _ _ e) = e
  of_package n p (Accessible.below _ m _) = absurd (let b = m in cc)

-- A class from a class-file, linked in a hierarchy that linking reaches and in which only java.lang.Object
-- has no parent, and another linked class, whose names do not start with '/': on as much fuel as the turn in which the first was linked,
-- `verify_field_access` returns if the first may use a field of the second by the rules of the
-- language, through packages and the classes above it, and throws if it may not.
pub verify_field_access-Accessible :
    (fp : Bool) (object : ℕ) (h : Hierarchy)
    → Reach fp object h
    → OneRoot object h
    → (fuel acl cl flags : ℕ) → h.turn acl ≢ 0
    → h.turn cl ≢ 0
    → h.turn acl ≤ fuel
    → class_is_array (h.classes acl) ≡ false
    → at_place (h.classes acl).name ≢ 47
    → at_place (h.classes cl).name ≢ 47
    → (b : Bool) × (verify_field_access fuel h.classes acl cl flags ≡ some b)
      × ((b ≡ true) ↔ Accessible h acl cl flags)
unfolding verify_field_access
verify_field_access-Accessible fp object h r one_root fuel acl cl flags old_acl old_cl l a na nc =
    let w = Reach-IsHierarchy fp object h r one_root in
    let packages = same_package-package_of (h.classes cl).name (h.classes acl).name nc na in
    elim (Bool-cases (has_flag flags acc_private)) [
      | inl p ↦ (
        acl == cl,
        rw (verify_field_access, p) refl,
        (λ e. Accessible.own (ground arith), of_private h acl cl flags p),
      )
      | inr np ↦ elim (Bool-cases (has_flag flags acc_protected)) [
        | inl q ↦ elim (Bool-cases (acl == cl)) [
          | inl y ↦ (
            true,
            rw (verify_field_access, np, q, y) refl,
            (λ _. Accessible.own (ground arith), λ _. refl),
          )
          | inr n ↦
              let nonzero : cl ≢ 0 = λ z. old_cl (ap h.turn z ∙ w.null) in
              let (b, e, (there, back)) =
                class_is_parent-Ancestor fp object h w fuel cl acl nonzero old_acl l a in
              let away : acl ≢ cl = ground arith in
              (
                b || same_package (h.classes cl).name (h.classes acl).name,
                rw (verify_field_access, np, q, n, e) refl,
                (
                  λ t. elim (or-cases b _ t) [
                    | inl x ↦ Accessible.below np q (there x)
                    | inr x ↦ Accessible.inside np (inl q) (packages.0 x)
                  ],
                  λ u. elim (of_protected h acl cl flags np q away u) [
                    | inl x ↦ let y = back x in ground arith
                    | inr x ↦ let y = packages.1 x in ground arith
                  ],
                ),
              )
        ]
        | inr nq ↦ elim (Bool-cases (has_flag flags acc_public)) [
          | inl y ↦ (
            true,
            rw (verify_field_access, np, nq, y) refl,
            (λ _. Accessible.everyone np nq y, λ _. refl),
          )
          | inr n ↦ (
            same_package (h.classes cl).name (h.classes acl).name,
            rw (verify_field_access, np, nq, n) refl,
            (
              λ t. Accessible.inside np (inr n) (packages.0 t),
              λ u. packages.1 (of_package h acl cl flags nq n u),
            ),
          )
        ]
      ]
    ]
