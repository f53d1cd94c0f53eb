-- ===== src/Methods.antt =====
-- The method manager of src/jelatine/method.c: `mm_add` is `add_method`, `mm_get` is `get`, and
-- `method_check_access_flags` is `check_access_flags`. The manager is the list of its methods; a
-- refused method leaves nothing in it, as `mm_add` counts the method last. Strings are lists of
-- characters as in Strings. The union `data` is the number that stands in it, 0 for NULL.
pub mod Adding
pub mod Accepting
pub mod Flags
pub mod Packing
mod Tests
use jelatine.Common.{
  ℕ, ◌+◌, ◌-◌, ◌*◌, ◌/◌, ◌%◌, ◌^◌, bit_and, bit_or, Bool, true, false, not, ◌&&◌, ◌||◌, Option,
  none, some, List, [], ◌∷◌, ◌++◌, ◌==◌, if◌then◌else◌,
}
use jelatine.Strings.{same_chars}
use jelatine.Descriptor.{Parsed, arguments_max, parse}

-- What `method->code` points to.
pub data Code : Type 0 where
  no_code : Code
  abstract_method_code : Code
  load_method_code : Code

-- `struct method_t`
pub record Method : Type 0 where
  pub name : List ℕ
  pub descriptor : List ℕ
  pub cp : ℕ
  pub access_flags : ℕ
  pub args_size : ℕ
  pub index : ℕ
  pub max_stack : ℕ
  pub max_locals : ℕ
  pub return_type : ℕ
  pub code_length : ℕ
  pub exception_table_length : ℕ
  pub code : Code
  pub data_offset : ℕ

-- `struct method_attributes_t`
pub record MethodAttributes : Type 0 where
  pub code_found : Bool
  pub code_offset : ℕ
  pub code_length : ℕ
  pub max_stack : ℕ
  pub max_locals : ℕ
  pub exceptions_found : Bool
  pub exception_table_length : ℕ

-- The exceptions that are thrown, by their messages.
pub data Refusal : Type 0 where
  duplicate : Refusal
  wrong_flags : Refusal
  wrong_constructor : Refusal
  code_of_native : Refusal
  code_of_abstract : Refusal
  lacks_code : Refusal
  too_many_arguments : Refusal
  malformed_descriptor : Refusal

abbrev pub acc_public : ℕ
acc_public = 0x0001

abbrev pub acc_private : ℕ
acc_private = 0x0002

abbrev pub acc_protected : ℕ
acc_protected = 0x0004

abbrev pub acc_static : ℕ
acc_static = 0x0008

abbrev pub acc_final : ℕ
acc_final = 0x0010

abbrev pub acc_synchronized : ℕ
acc_synchronized = 0x0020

abbrev pub acc_native : ℕ
acc_native = 0x0100

abbrev pub acc_abstract : ℕ
acc_abstract = 0x0400

abbrev pub acc_strict : ℕ
acc_strict = 0x0800

-- `access_flags & flag` as a condition
abbrev pub has_flag : ℕ → ℕ → Bool
has_flag access_flags flag = not (bit_and access_flags flag == 0)

-- "<init>"
abbrev pub init_name : List ℕ
init_name = 60 ∷ 105 ∷ 110 ∷ 105 ∷ 116 ∷ 62 ∷ []

unfoldable pub is_init : Method → Bool
is_init m = same_chars m.name init_name

unfoldable pub check_access_flags : Method → Option Refusal
check_access_flags m =
    let has = has_flag m.access_flags in
    if has acc_private && has acc_protected
      || has acc_private && has acc_public
      || has acc_protected && has acc_public
    then some Refusal.wrong_flags
    else if has acc_abstract
        && (has acc_final
            || has acc_synchronized
            || has acc_private
            || has acc_static
            || has acc_strict
            || has acc_native)
    then some Refusal.wrong_flags
    else if is_init m
        && (has acc_static
            || has acc_final
            || has acc_synchronized
            || has acc_native
            || has acc_abstract)
    then some Refusal.wrong_constructor
    else none

unfoldable pub matches : List ℕ → List ℕ → Method → Bool
matches name descriptor m = same_chars m.name name && same_chars m.descriptor descriptor

-- The index of the method in the manager.
unfoldable pub get : List ℕ → List ℕ → List Method → Option ℕ
get name descriptor [] = none
get name descriptor (m ∷ methods) =
    let rest = get name descriptor methods in
    if matches name descriptor m then some 0 else elim rest [ none ↦ none | some i ↦ some (i + 1) ]

-- The part of `mm_add` that sets the code, and what it throws.
pub data Coded : Type 0 where
  coded : Method → Coded
  uncoded : Refusal → Coded

unfoldable pub set_code : MethodAttributes → Method → Coded
set_code attr m =
    if has_flag m.access_flags acc_native
    then (if attr.code_found
        then Coded.uncoded Refusal.code_of_native
        else Coded.coded (record m {
          max_stack = 0;
          max_locals = 0;
          code_length = 0;
          exception_table_length = 0;
          code = Code.no_code;
        }))
    else if has_flag m.access_flags acc_abstract
    then (if attr.code_found
        then Coded.uncoded Refusal.code_of_abstract
        else Coded.coded (record m {
          max_stack = 0;
          max_locals = 0;
          code_length = 1;
          exception_table_length = 0;
          code = Code.abstract_method_code;
          data_offset = 0;
        }))
    else if attr.code_found
    then Coded.coded (record m {
      max_stack = attr.max_stack;
      max_locals = attr.max_locals;
      code_length = attr.code_length;
      exception_table_length = attr.exception_table_length;
      code = Code.load_method_code;
      data_offset = attr.code_offset;
    })
    else Coded.uncoded Refusal.lacks_code

-- The memory of a new method is cleared.
unfoldable pub new_method : List ℕ → List ℕ → ℕ → ℕ → Method
new_method name descriptor access_flags cp = record {
  name = name;
  descriptor = descriptor;
  cp = cp;
  access_flags = access_flags;
  args_size = 0;
  index = 0;
  max_stack = 0;
  max_locals = 0;
  return_type = 0;
  code_length = 0;
  exception_table_length = 0;
  code = Code.no_code;
  data_offset = 0;
}

pub data Added : Type 0 where
  added : List Method → Added
  refused : Refusal → Added

-- The end of `mm_add`: the descriptor is parsed, and the method is counted.
unfoldable pub complete : List Method → Method → Added
complete methods m = elim (parse (has_flag m.access_flags acc_static) m.descriptor) [
  | Parsed.size n ↦ Added.added (methods ++ (record m { args_size = n } ∷ []))
  | Parsed.too_many ↦ Added.refused Refusal.too_many_arguments
  | Parsed.malformed ↦ Added.refused Refusal.malformed_descriptor
]

unfoldable pub add_method : List ℕ → List ℕ → ℕ → ℕ → MethodAttributes → List Method → Added
add_method name descriptor access_flags cp attr methods = elim (get name descriptor methods) [
  | some i ↦ Added.refused Refusal.duplicate
  | none ↦
      let m = new_method name descriptor access_flags cp in
      elim (check_access_flags m) [
        | some r ↦ Added.refused r
        | none ↦ elim (set_code attr m) [
          | Coded.uncoded r ↦ Added.refused r
          | Coded.coded m' ↦ complete methods m'
        ]
      ]
]

-- `method_create_packed_index`, and what is unpacked from the translated bytecode.
unfoldable pub create_packed_index : Method → ℕ
create_packed_index m = bit_or (m.index * 2 ^ 4) m.args_size % 2 ^ 16

unfoldable pub unpack_arguments : ℕ → ℕ
unpack_arguments m = bit_and m (arguments_max - 1)

unfoldable pub unpack_index : ℕ → ℕ
unpack_index m = m / 2 ^ 4
