-- ===== src/Classes/Subtypes/Equivalence.antt =====
-- `bcl_is_assignable` of src/jelatine/loader.c returns, and decides the subtype relation.
use jelatine.Common.{
  ℕ, zero, suc, ◌≤◌, ◌≡◌, refl, ◌≢◌, ◌↔◌, inl, inr, Bool, true, false, ◌&&◌, Option, none, some,
  List, ◌==◌, if◌then◌else◌, Bool-cases, arith, ap, ◌∙◌, sym,
}
use mathlib.Core.Option.{some-injective}
use jelatine.Collector.{pt_reference}
use jelatine.Classes.Hierarchy.{
  class_is_array, class_is_interface, im_is_present, climb, present_in, bcl_is_assignable,
}
use jelatine.Classes.Linking.Order.{Hierarchy, IsHierarchy, Reach, OneRoot, Reach-IsHierarchy}
use jelatine.Classes.Subtypes.{Subtype}
use jelatine.Classes.Subtypes.Parents.{class-parent, linked-view}
use jelatine.Classes.Subtypes.Sound.{elements-Before, bcl_is_assignable-Subtype}
use jelatine.Classes.Subtypes.Rules.{complete}

unfoldable Answers : Option Bool → Type 0
Answers o = (b : Bool) × (o ≡ some b)

present_in-Answers : (o : Option (List ℕ)) (d : ℕ) → o ≢ none → Answers (present_in o d)
unfolding Answers
present_in-Answers none d n = absurd (n refl)
present_in-Answers (some im) d n = (im_is_present im d, refl)

if-Answers : (b : Bool) (o : Option Bool) → Answers o → Answers (if b then some true else o)
unfolding Answers
if-Answers true o a = (true, refl)
if-Answers false o a = a

module _ (fp : Bool) (object : ℕ) (h : Hierarchy) (w : IsHierarchy fp object h) where
  climb-Answers :
      (fuel c d : ℕ)
      → h.turn c ≢ 0
      → h.turn c ≤ fuel
      → class_is_array (h.classes c) ≡ false
      → class_is_interface (h.classes c) ≡ false
      → Answers (climb fuel h.classes c d)
  unfolding climb Answers
  climb-Answers zero c d old l a i = absurd (omega arith)
  climb-Answers (suc fuel) c d old l a i = elim (Bool-cases ((h.classes c).parent == 0)) [
    | inl z ↦ rw (climb, z) (false, refl)
    | inr n ↦
        let v = linked-view fp object h w c old a in
        let (x, j, b) = class-parent fp object h w c v i (ground arith) in
        let b0 = b.0 in
        let b1 = b.1 in
        rw (climb, n)
          (if-Answers ((h.classes c).parent == d) _
            (climb-Answers fuel (h.classes c).parent d b.0 (omega arith) x j))
  ]

  bcl_is_assignable-Answers :
      (fuel c d : ℕ)
      → h.turn c ≢ 0
      → h.turn c ≤ fuel
      → Answers (bcl_is_assignable fuel h.classes c d)
  unfolding bcl_is_assignable Answers
  bcl_is_assignable-Answers zero c d old l = absurd (omega arith)
  bcl_is_assignable-Answers (suc fuel) c d old l =
      let s = h.classes in
      elim (Bool-cases (class_is_array (s c))) [
        | inl ac ↦ elim (Bool-cases (class_is_array (s d))) [
          | inl ad ↦
              elim (Bool-cases
                (((s c).elem_type == pt_reference) && ((s d).elem_type == pt_reference))) [
                  | inl both ↦
                      let rc : (s c).elem_type ≡ pt_reference = ground arith in
                      let b = elements-Before fp object h w c old ac rc in
                      let b0 = b.0 in
                      let b1 = b.1 in
                      rw (bcl_is_assignable, ac, ad, both)
                        (bcl_is_assignable-Answers fuel (s c).elem_class (s d).elem_class b.0
                          (omega arith))
                  | inr other ↦ rw (bcl_is_assignable, ac, ad, other) (_, refl)
                ]
          | inr nd ↦ elim (Bool-cases (class_is_interface (s d))) [
            | inl i ↦ rw (bcl_is_assignable, ac, nd, i) (_, refl)
            | inr n ↦ rw (bcl_is_assignable, ac, nd, n) (_, refl)
          ]
        ]
        | inr nc ↦ elim (Bool-cases (class_is_interface (s d))) [
          | inl i ↦
              let a =
                present_in-Answers (s c).interface_manager d
                  ((linked-view fp object h w c old nc).5) in
              elim (Bool-cases (class_is_interface (s c))) [
                | inl ic ↦ rw (bcl_is_assignable, nc, ic, i) (if-Answers (c == d) _ a)
                | inr jc ↦ rw (bcl_is_assignable, nc, jc, i) a
              ]
          | inr n ↦ elim (Bool-cases (class_is_interface (s c))) [
            | inl ic ↦ rw (bcl_is_assignable, nc, ic, n) (_, refl)
            | inr jc ↦
                rw (bcl_is_assignable, nc, jc, n)
                  (if-Answers (c == d) _ (climb-Answers (suc fuel) c d old l nc jc))
          ]
        ]
      ]

  decides :
      (fuel c d : ℕ)
      → h.turn c ≢ 0
      → h.turn d ≢ 0
      → h.turn c ≤ fuel
      → (b : Bool) × (bcl_is_assignable fuel h.classes c d ≡ some b) × ((b ≡ true) ↔ Subtype h c d)
  unfolding Answers
  decides fuel c d old_c old_d l =
      let (b, e) = bcl_is_assignable-Answers fuel c d old_c l in
      (
        b,
        e,
        (
          λ t. bcl_is_assignable-Subtype fp object h w fuel c d old_c old_d (e ∙ ap some t),
          λ s. some-injective _ _ (sym e ∙ complete fp object h w c d s old_c old_d fuel l),
        ),
      )

-- Between linked classes of a hierarchy that linking reaches and in which only java.lang.Object has no
-- parent, which `load_class` does not check, `bcl_is_assignable` returns, on as much
-- fuel as the turn in which the first class was linked, and it says yes if and only if the first class
-- is a subtype of the second by the rules of the language: through parents, through the interfaces in
-- the class-files, and through the elements of arrays.
pub bcl_is_assignable-Subtype_iff :
    (fp : Bool) (object : ℕ) (h : Hierarchy)
    → Reach fp object h
    → OneRoot object h
    → (fuel c d : ℕ) → h.turn c ≢ 0
    → h.turn d ≢ 0
    → h.turn c ≤ fuel
    → (b : Bool) × (bcl_is_assignable fuel h.classes c d ≡ some b) × ((b ≡ true) ↔ Subtype h c d)
bcl_is_assignable-Subtype_iff fp object h r one_root =
    decides fp object h (Reach-IsHierarchy fp object h r one_root)
