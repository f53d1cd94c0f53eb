-- ===== src/Classes/Linking.antt =====
-- How a class enters the hierarchy: `load_class`, `derive_class` and `load_interfaces` of
-- src/jelatine/loader.c. What the class-file and the resolution of the names in it give stands in a
-- Request; the loading of the constant pool, the fields, the methods and the attributes, which may
-- throw as well, is left out here.
pub mod Interfaces
pub mod Checks
pub mod Frame
pub mod Order
use jelatine.Common.{
  ℕ, zero, suc, ◌-◌, Bool, true, false, not, ◌&&◌, ◌||◌, Option, none, some, List, [], ◌∷◌, ◌++◌,
  ltb, ◌==◌, if◌then◌else◌, length, get_or, bit_and, bit_or,
}
use jelatine.Methods.{has_flag, acc_public, acc_final, acc_abstract}
use jelatine.Collector.{acc_array, pt_reference}
use jelatine.Descriptor.{at_place, behind}
use jelatine.Strings.{same_chars}
use jelatine.Classes.Hierarchy.{
  Class, Store, acc_interface, class_acc_flags_mask, class_is_object, class_is_array,
  class_is_interface, class_is_final, im_add, im_add_all,
}

-- A function over the interfaces returns, throws, or reads through a null pointer.
pub data Collection : Type 0 where
  collected : List ℕ → Collection
  thrown : Collection
  null_pointer : Collection

-- The loop over the interfaces in the class-file.
unfoldable pub load_declared : Store → List ℕ → List ℕ → Collection
load_declared s im [] = Collection.collected im
load_declared s im (interface ∷ rest) = elim (class_is_interface (s interface)) [
  | false ↦ Collection.thrown
  | true ↦ elim ((s interface).interface_manager) [
    | none ↦ Collection.null_pointer
    | some inherited ↦ load_declared s (im_add_all (im_add im interface) inherited) rest
  ]
]

unfoldable pub load_interfaces : Store → ℕ → List ℕ → Collection
load_interfaces s parent declared =
    if parent == 0 then load_declared s [] declared else elim ((s parent).interface_manager) [
      | none ↦ Collection.null_pointer
      | some inherited ↦ load_declared s (im_add_all [] inherited) declared
    ]

-- What `derive_class` reads: the header of the class-file, the name of `this_class`, and the classes
-- to which the parent (0 where there is none) and the interfaces resolve.
pub record ClassFile : Type 0 where
  pub magic : ℕ
  pub major : ℕ
  pub access_flags : ℕ
  pub this_class : List ℕ
  pub parent : ℕ
  pub interfaces : List ℕ

pub data Loaded : Type 0 where
  loaded : Class → Loaded
  thrown : Loaded
  null_pointer : Loaded

-- A check that throws when it fails.
unfoldable pub require : Bool → Loaded → Loaded
require b next = if b then next else Loaded.thrown

-- The checks of the flags by themselves.
unfoldable pub flags_sound : ℕ → Bool
flags_sound flags =
    if has_flag flags acc_interface
    then has_flag flags acc_abstract && not (has_flag flags acc_final)
    else not (has_flag flags acc_abstract && has_flag flags acc_final)

-- The checks of the parent class.
unfoldable pub parent_sound : Store → ℕ → ℕ → Bool
parent_sound s flags parent =
    if parent == 0
    then not (
        has_flag flags acc_final
        || not (has_flag flags acc_public)
        || has_flag flags acc_interface
        || has_flag flags acc_abstract)
    else if has_flag flags acc_interface
    then class_is_object (s parent)
    else not
        (class_is_interface (s parent) || class_is_final (s parent) || class_is_array (s parent))

abbrev pub derived : List ℕ → ClassFile → List ℕ → Class
derived name file im = record {
  name = name;
  parent = file.parent;
  access_flags = bit_and file.access_flags class_acc_flags_mask;
  elem_type = 0;
  elem_class = 0;
  interface_manager = some im;
}

abbrev pub with_interfaces : List ℕ → ClassFile → Collection → Loaded
with_interfaces name file (Collection.collected im) = Loaded.loaded (derived name file im)
with_interfaces name file Collection.thrown = Loaded.thrown
with_interfaces name file Collection.null_pointer = Loaded.null_pointer

unfoldable pub derive_class : Store → List ℕ → ClassFile → Loaded
derive_class s name file =
    let flags = bit_and file.access_flags class_acc_flags_mask in
    require (file.magic == 0xCAFEBABE) (
      require (not (ltb file.major 45 || ltb 51 file.major)) (
        require (flags_sound flags) (
          require (same_chars name file.this_class) (
            require (parent_sound s flags file.parent)
              (with_interfaces name file (load_interfaces s file.parent file.interfaces))))))

-- The class with the name, the class-file that is opened by that name, and the class to which the
-- name of the elements resolves.
pub record Request : Type 0 where
  pub name : List ℕ
  pub file : ClassFile
  pub element : ℕ

-- The primitive type of the elements of an array, by the character behind the bracket.
unfoldable pub primitive_type : Bool → ℕ → Option ℕ
primitive_type fp c =
    if c == 66
    then some 0
    else if c == 67
    then some 2
    else if fp && (c == 68)
    then some 7
    else if fp && (c == 70)
    then some 5
    else if c == 73
    then some 4
    else if c == 74
    then some 6
    else if c == 83
    then some 3
    else if c == 90
    then some 1
    else none

abbrev pub array_class : ℕ → List ℕ → ℕ → ℕ → ℕ → Class
array_class object name flags elem_type elem_class = record {
  name = name;
  parent = object;
  access_flags = flags;
  elem_type = elem_type;
  elem_class = elem_class;
  interface_manager = none;
}

abbrev pub array_of_elements : Store → ℕ → Request → Loaded
array_of_elements s object request = Loaded.loaded (
    array_class object request.name (bit_or (s request.element).access_flags acc_array) pt_reference
      request.element)

abbrev pub array_of_primitives : ℕ → Request → Option ℕ → Loaded
array_of_primitives object request none = Loaded.thrown
array_of_primitives object request (some t) =
    Loaded.loaded (array_class object request.name 0x1411 t 0)

-- The branch for the name of an array; `object` is the class java.lang.Object.
unfoldable pub load_array : Bool → Store → ℕ → Request → Loaded
load_array fp s object request =
    let name = request.name in
    let len = length name in
    if at_place (behind name) == 91
    then array_of_elements s object request
    else if at_place (behind name) == 76
    then require (not (ltb len 4 || not (get_or name (len - 1) 0 == 59)))
        (array_of_elements s object request)
    else array_of_primitives object request (primitive_type fp (at_place (behind name)))

unfoldable pub load_class : Bool → Store → ℕ → Request → Loaded
load_class fp s object request =
    let name = request.name in
    require (not (length name == 0)) (
      if not (at_place name == 91)
      then derive_class s name request.file
      else require (not (ltb (length name) 2)) (load_array fp s object request))
