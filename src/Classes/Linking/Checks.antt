-- ===== src/Classes/Linking/Checks.antt =====
-- What holds of a class that `load_class` of src/jelatine/loader.c has loaded: the checks of
-- `derive_class` for a class-file, and what is set for an array class.
use jelatine.Common.{
  ℕ, ◌≡◌, refl, ◌≢◌, ◌-◌, ◌⊎◌, inl, inr, Bool, true, false, not, ◌||◌, Option, none, some, List, [],
  ◌∷◌, ltb, ◌==◌, if◌then◌else◌, length, get_or, bit_and, bit_or, Bool-cases, arith,
}
use mathlib.Core.Path.{subst}
use jelatine.Common.Bits.{bit_and-digit, digit-bit_or, digit-small, bit_and-bound}
use jelatine.Methods.{has_flag}
use jelatine.Collector.{acc_array, pt_reference}
use jelatine.Descriptor.{at_place, behind}
use jelatine.Classes.Hierarchy.{Class, Store, class_acc_flags_mask, class_is_array}
use jelatine.Classes.Linking.{
  Collection, ClassFile, Loaded, Request, load_interfaces, require, parent_sound, derived,
  with_interfaces, derive_class, primitive_type, array_of_elements, array_of_primitives, load_array,
  load_class,
}

require-loaded :
    (b : Bool) (l : Loaded) (cl : Class)
    → require b l ≡ Loaded.loaded cl
    → (b ≡ true) × (l ≡ Loaded.loaded cl)
unfolding require
require-loaded true l cl h = (refl, h)
require-loaded false l cl h = absurd (let e = h in cc)

loaded-injective : {a b : Class} → Loaded.loaded a ≡ Loaded.loaded b → a ≡ b
loaded-injective h = cc

masked-not_array : (f : ℕ) → has_flag (bit_and f class_acc_flags_mask) acc_array ≡ false
masked-not_array f = ground (
  arith,
  bit_and-digit 12 (bit_and f class_acc_flags_mask),
  digit-small 12 (bit_and f class_acc_flags_mask)
      (omega (arith, bit_and-bound f class_acc_flags_mask)),
)

joined-array : (f : ℕ) → has_flag (bit_or f acc_array) acc_array ≡ true
joined-array f = ground (arith, bit_and-digit 12 (bit_or f acc_array), digit-bit_or 12 f)

-- A class from a class-file.
abbrev pub IsDerived : Store → ClassFile → Class → Type 0
IsDerived s file cl =
    (class_is_array cl ≡ false)
    × (cl.parent ≡ file.parent)
    × (parent_sound s cl.access_flags cl.parent ≡ true)
    × ((im : List ℕ) × (cl.interface_manager ≡ some im)
        × (load_interfaces s file.parent file.interfaces ≡ Collection.collected im))

-- The class of the elements, where the name asks for one.
abbrev pub elements : Request → List ℕ
elements request =
    if (at_place (behind request.name) == 91) || (at_place (behind request.name) == 76)
    then request.element ∷ []
    else []

-- An array class.
abbrev pub IsArrayClass : ℕ → Request → Class → Type 0
IsArrayClass object request cl =
    (class_is_array cl ≡ true)
    × (cl.parent ≡ object)
    × (cl.interface_manager ≡ none)
    × ((cl.elem_type ≡ pt_reference)
        → (cl.elem_class ≡ request.element) × (elements request ≡ request.element ∷ []))

with_interfaces-loaded :
    (s : Store) (name : List ℕ) (file : ClassFile) (c : Collection) (cl : Class)
    → with_interfaces name file c ≡ Loaded.loaded cl
    → (im : List ℕ) × (derived name file im ≡ cl) × (c ≡ Collection.collected im)
with_interfaces-loaded s name file (Collection.collected im) cl h = (im, loaded-injective h, refl)
with_interfaces-loaded s name file Collection.thrown cl h = absurd (let e = h in cc)
with_interfaces-loaded s name file Collection.null_pointer cl h = absurd (let e = h in cc)

derive_class-IsDerived :
    (s : Store) (name : List ℕ) (file : ClassFile) (cl : Class)
    → derive_class s name file ≡ Loaded.loaded cl
    → IsDerived s file cl
unfolding derive_class
derive_class-IsDerived s name file cl h =
    let magic = require-loaded _ _ cl h in
    let version = require-loaded _ _ cl magic.1 in
    let flags = require-loaded _ _ cl version.1 in
    let names = require-loaded _ _ cl flags.1 in
    let parent = require-loaded _ _ cl names.1 in
    let (im, e, collected) = with_interfaces-loaded s name file _ cl parent.1 in
    subst (λ c. IsDerived s file c) e
      (masked-not_array file.access_flags, refl, parent.0, (im, refl, collected))

primitive_type-not_reference :
    (fp : Bool) (c t : ℕ) → primitive_type fp c ≡ some t → t ≢ pt_reference
unfolding primitive_type
primitive_type-not_reference fp c t h = ground arith

array_of_primitives-IsArrayClass :
    (object : ℕ) (request : Request) (o : Option ℕ) (cl : Class)
    → ((t : ℕ) → o ≡ some t → t ≢ pt_reference)
    → array_of_primitives object request o ≡ Loaded.loaded cl
    → IsArrayClass object request cl
array_of_primitives-IsArrayClass object request none cl primitive h = absurd (let e = h in cc)
array_of_primitives-IsArrayClass object request (some t) cl primitive h =
    subst (λ c. IsArrayClass object request c) (loaded-injective h)
      (refl, refl, refl, λ e. absurd (primitive t refl e))

array_of_elements-IsArrayClass :
    (s : Store) (object : ℕ) (request : Request) (cl : Class)
    → elements request ≡ request.element ∷ []
    → array_of_elements s object request ≡ Loaded.loaded cl
    → IsArrayClass object request cl
array_of_elements-IsArrayClass s object request cl asked h =
    subst (λ c. IsArrayClass object request c) (loaded-injective h)
      (joined-array (s request.element).access_flags, refl, refl, λ e. (refl, asked))

load_array-IsArrayClass :
    (fp : Bool) (s : Store) (object : ℕ) (request : Request) (cl : Class)
    → load_array fp s object request ≡ Loaded.loaded cl
    → IsArrayClass object request cl
unfolding load_array
load_array-IsArrayClass fp s object request cl h =
    let of_elements = array_of_elements-IsArrayClass s object request cl in
    elim (Bool-cases (at_place (behind request.name) == 91)) [
      | inl t ↦
          let h' : array_of_elements s object request ≡ Loaded.loaded cl =
            rw (load_array, t) at h in
          of_elements (ground arith) h'
      | inr f ↦ elim (Bool-cases (at_place (behind request.name) == 76)) [
        | inl t ↦
            let len : ℕ = length request.name in
            let h' : require (not (ltb len 4 || not (get_or request.name (len - 1) 0 == 59)))
                  (array_of_elements s object request)
                ≡ Loaded.loaded cl =
              rw (load_array, f, t) at h in
            of_elements (ground arith) (require-loaded _ _ cl h').1
        | inr g ↦
            let h' : array_of_primitives object request
                  (primitive_type fp (at_place (behind request.name)))
                ≡ Loaded.loaded cl =
              rw (load_array, f, g) at h in
            array_of_primitives-IsArrayClass object request _ cl (primitive_type-not_reference fp _)
              h'
      ]
    ]

-- By the first character of its name a class is an array or from a class-file.
abbrev pub IsLinked : Store → ℕ → Request → Class → Type 0
IsLinked s object request cl =
    ((at_place request.name ≡ 91) × IsArrayClass object request cl)
    ⊎ ((at_place request.name ≢ 91) × IsDerived s request.file cl)

pub load_class-IsLinked :
    (fp : Bool) (s : Store) (object : ℕ) (request : Request) (cl : Class)
    → load_class fp s object request ≡ Loaded.loaded cl
    → IsLinked s object request cl
unfolding load_class
load_class-IsLinked fp s object request cl h =
    let inside = require-loaded _ _ cl h in
    elim (Bool-cases (at_place request.name == 91)) [
      | inr f ↦
          let h' : derive_class s request.name request.file ≡ Loaded.loaded cl = rw f at inside.1 in
          inr (ground arith, derive_class-IsDerived s request.name request.file cl h')
      | inl t ↦
          let h' : require (not (ltb (length request.name) 2)) (load_array fp s object request)
              ≡ Loaded.loaded cl =
            rw t at inside.1 in
          inl (
            ground arith,
            load_array-IsArrayClass fp s object request cl (require-loaded _ _ cl h').1,
          )
    ]
