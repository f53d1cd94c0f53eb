-- ===== src/Classes/Members.antt =====
-- The fields of a class: `class_add_field` and `class_get_field` of src/jelatine/class.c, `verify_field`
-- of src/jelatine/verifier.c, and `load_fields` of src/jelatine/loader.c. What `load_field_info` and
-- `load_field_attributes` read from the class-file stands in a FieldInfo. The array of fields is a list,
-- `fp` is the configuration JEL_FP_SUPPORT, and `none` is an exception.
pub mod Flags
pub mod Lookup
pub mod Validity
mod Tests
use jelatine.Common.{
  ℕ, Bool, true, false, not, ◌&&◌, ◌||◌, Option, none, some, List, [], ◌∷◌, ◌++◌, ◌==◌,
  if◌then◌else◌, bit_and,
}
use jelatine.Methods.{has_flag, acc_public, acc_private, acc_protected, acc_static, acc_final}
use jelatine.Descriptor.{at_place}
use jelatine.Strings.{same_chars}
use jelatine.Fields.{Field, field_is_static, same_bool, parse_field}

abbrev pub acc_volatile : ℕ
acc_volatile = 0x0040

abbrev pub acc_transient : ℕ
acc_transient = 0x0080

-- FIELD_ACC_FLAGS_MASK
abbrev pub field_acc_flags_mask : ℕ
field_acc_flags_mask = 0x00df

-- The flags as they stand in the class-file, and the index of the constant value, where there is one.
pub record FieldInfo : Type 0 where
  pub access_flags : ℕ
  pub name : List ℕ
  pub descriptor : List ℕ
  pub constant_value : Option ℕ

abbrev pub flags_of : FieldInfo → ℕ
flags_of info = bit_and info.access_flags field_acc_flags_mask

-- The loop that looks for a field with the name and the descriptor.
unfoldable pub is_duplicate : List Field → List ℕ → List ℕ → Bool
is_duplicate [] name descriptor = false
is_duplicate (f ∷ fields) name descriptor =
    (same_chars f.name name && same_chars f.descriptor descriptor)
    || is_duplicate fields name descriptor

-- "Ljava/lang/String;"
abbrev pub string_descriptor : List ℕ
string_descriptor =
    76 ∷ 106 ∷ 97 ∷ 118 ∷ 97 ∷ 47 ∷ 108 ∷ 97 ∷ 110 ∷ 103 ∷ 47 ∷ 83 ∷ 116 ∷ 114 ∷ 105 ∷ 110 ∷ 103
    ∷ 59 ∷ []

-- Whether a constant value is allowed.
abbrev pub constant_sound : FieldInfo → Bool
constant_sound info = elim (info.constant_value) [
  | none ↦ true
  | some index ↦
      has_flag (flags_of info) acc_static
      && (not (at_place info.descriptor == 76) || same_chars info.descriptor string_descriptor)
]

abbrev pub access_sound : ℕ → Bool
access_sound flags = not (
    (has_flag flags acc_public && has_flag flags acc_protected)
    || (has_flag flags acc_public && has_flag flags acc_private)
    || (has_flag flags acc_protected && has_flag flags acc_private)
    || (has_flag flags acc_final && has_flag flags acc_volatile))

-- What the fields of an interface have to be.
abbrev pub interface_sound : Bool → ℕ → Bool
interface_sound interface flags =
    not interface
    || (has_flag flags acc_public
        && has_flag flags acc_static
        && has_flag flags acc_final
        && not (has_flag flags acc_transient))

-- Whether the function returns, or else throws.
unfoldable pub verify_field : Bool → Bool → List Field → FieldInfo → Bool
verify_field fp interface fields info =
    not (is_duplicate fields info.name info.descriptor)
    && parse_field fp info.descriptor
    && constant_sound info
    && access_sound (flags_of info)
    && interface_sound interface (flags_of info)

-- The field that is added: the index of the constant value of a static field stands for its offset.
unfoldable pub added_field : FieldInfo → Field
added_field info = record {
  name = info.name;
  descriptor = info.descriptor;
  access_flags = flags_of info;
  offset = elim (info.constant_value) [
    | none ↦ 0
    | some index ↦ if has_flag (flags_of info) acc_static then index else 0
  ];
}

unfoldable pub class_add_field : List Field → FieldInfo → List Field
class_add_field fields info = fields ++ (added_field info ∷ [])

unfoldable pub load_fields : Bool → Bool → List FieldInfo → List Field → Option (List Field)
load_fields fp interface [] fields = some fields
load_fields fp interface (info ∷ rest) fields =
    let further = load_fields fp interface rest (class_add_field fields info) in
    if verify_field fp interface fields info then further else none

unfoldable pub class_get_field : List Field → List ℕ → List ℕ → Bool → Option Field
class_get_field [] name descriptor stat = none
class_get_field (f ∷ fields) name descriptor stat =
    if same_chars f.name name
      && same_chars f.descriptor descriptor
      && same_bool (field_is_static f) stat
    then some f
    else class_get_field fields name descriptor stat
