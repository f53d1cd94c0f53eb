-- ===== src/Classes/Linking/Frame.antt =====
-- Of the classes that there are, `load_class` of src/jelatine/loader.c reads those that it resolves.
use jelatine.Common.{
  ℕ, ◌≡◌, refl, inl, inr, Bool, true, false, ◌||◌, List, [], ◌∷◌, ◌==◌, if◌then◌else◌, bit_and, All,
  Bool-cases, Option-cases, arith, ap, ◌∙◌,
}
use jelatine.Descriptor.{at_place, behind}
use jelatine.Classes.Hierarchy.{
  Class, Store, class_acc_flags_mask, class_is_interface, im_add, im_add_all,
}
use jelatine.Classes.Linking.{
  Request, ClassFile, load_declared, load_interfaces, parent_sound, derive_class, load_array,
  load_class,
}
use jelatine.Classes.Linking.Checks.{elements}

-- The classes that the class-file names, with its parent where it has one.
abbrev pub relatives : ClassFile → List ℕ
relatives file = if file.parent == 0 then file.interfaces else file.parent ∷ file.interfaces

-- The classes that are resolved for a class.
abbrev pub references : Request → List ℕ
references request =
    if at_place request.name == 91 then elements request else relatives request.file

abbrev pub Agree : Store → Store → List ℕ → Type 0
Agree s t = All (λ r. s r ≡ t r)

load_declared-Agree :
    (s t : Store) (im declared : List ℕ)
    → Agree s t declared
    → load_declared s im declared ≡ load_declared t im declared
unfolding load_declared
load_declared-Agree s t im [] h = refl
load_declared-Agree s t im (i ∷ rest) h = elim (Bool-cases (class_is_interface (t i))) [
  | inr f ↦
      let g : class_is_interface (s i) ≡ false = rw (h.0) f in
      rw (load_declared, g, load_declared, f) refl
  | inl e ↦
      let g : class_is_interface (s i) ≡ true = rw (h.0) e in
      let same = ap (λ (c : Class). c.interface_manager) h.0 in
      elim (Option-cases ((t i).interface_manager)) [
        | inl n ↦ rw (load_declared, g, same ∙ n, load_declared, e, n) refl
        | inr (inherited, m) ↦
            rw (load_declared, g, same ∙ m, load_declared, e, m)
              (load_declared-Agree s t (im_add_all (im_add im i) inherited) rest h.1)
      ]
]

load_interfaces-Agree :
    (s t : Store) (file : ClassFile)
    → Agree s t (relatives file)
    → load_interfaces s file.parent file.interfaces ≡ load_interfaces t file.parent file.interfaces
unfolding load_interfaces
load_interfaces-Agree s t file h = elim (Bool-cases (file.parent == 0)) [
  | inl z ↦
      let h' : Agree s t file.interfaces = rw z at h in
      rw (load_interfaces, z) (load_declared-Agree s t [] file.interfaces h')
  | inr f ↦
      let h' : Agree s t (file.parent ∷ file.interfaces) = rw f at h in
      let same = ap (λ (c : Class). c.interface_manager) h'.0 in
      elim (Option-cases ((t file.parent).interface_manager)) [
        | inl n ↦ rw (load_interfaces, f, same ∙ n, load_interfaces, n) refl
        | inr (inherited, m) ↦
            rw (load_interfaces, f, same ∙ m, load_interfaces, m)
              (load_declared-Agree s t (im_add_all [] inherited) file.interfaces h'.1)
      ]
]

parent_sound-Agree :
    (s t : Store) (flags : ℕ) (file : ClassFile)
    → Agree s t (relatives file)
    → parent_sound s flags file.parent ≡ parent_sound t flags file.parent
unfolding parent_sound
parent_sound-Agree s t flags file h = elim (Bool-cases (file.parent == 0)) [
  | inl z ↦ rw (parent_sound, z) refl
  | inr f ↦
      let h' : Agree s t (file.parent ∷ file.interfaces) = rw f at h in rw (parent_sound, h'.0) refl
]

derive_class-Agree :
    (s t : Store) (name : List ℕ) (file : ClassFile)
    → Agree s t (relatives file)
    → derive_class s name file ≡ derive_class t name file
unfolding derive_class
derive_class-Agree s t name file h =
    rw
      (
        derive_class,
        parent_sound-Agree s t (bit_and file.access_flags class_acc_flags_mask) file h,
        load_interfaces-Agree s t file h,
      )
      refl

load_array-Agree :
    (s t : Store) (object : ℕ) (fp : Bool) (request : Request)
    → Agree s t (elements request)
    → load_array fp s object request ≡ load_array fp t object request
unfolding load_array
load_array-Agree s t object fp request h =
    elim (Bool-cases
      ((at_place (behind request.name) == 91) || (at_place (behind request.name) == 76))) [
        | inl y ↦
            let h' : Agree s t (request.element ∷ []) = rw y at h in rw (load_array, h'.0) refl
        | inr n ↦
            let a : (at_place (behind request.name) == 91) ≡ false = ground arith in
            let b : (at_place (behind request.name) == 76) ≡ false = ground arith in
            rw (load_array, a, b) refl
      ]

-- Loading a class reads the classes that it refers to, and no others.
pub load_class-Agree :
    (fp : Bool) (s t : Store) (object : ℕ) (request : Request)
    → Agree s t (references request)
    → load_class fp s object request ≡ load_class fp t object request
unfolding load_class
load_class-Agree fp s t object request h = elim (Bool-cases (at_place request.name == 91)) [
  | inl y ↦
      let h' : Agree s t (elements request) = rw y at h in
      rw (load_class, y, load_array-Agree s t object fp request h') refl
  | inr n ↦
      let h' : Agree s t (relatives request.file) = rw n at h in
      rw (load_class, n, derive_class-Agree s t request.name request.file h') refl
]
