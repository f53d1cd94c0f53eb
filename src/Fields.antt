-- ===== src/Fields.antt =====
-- Fields, src/jelatine/field.c: their descriptors (`field_parse_descriptor` is `parse_field`), their
-- sizes, and the iterator over the static or the other fields of a class. Places in a descriptor
-- are as in Descriptor; a pointer into the fields of a class is the list of the fields from there
-- to the end, so `NULL`, which the iterator has when it is done, is the empty list. `fp` is the
-- configuration JEL_FP_SUPPORT, and a pointer has 8 bytes.
pub mod Shapes
pub mod Iteration
mod Tests
use jelatine.Common.{
  ℕ, ◌+◌, Bool, true, false, not, ◌&&◌, ◌||◌, Option, none, some, List, [], ◌∷◌, leb, ◌==◌,
  if◌then◌else◌,
}
use jelatine.Descriptor.{at_place, behind, skip_name}
use jelatine.Methods.{has_flag, acc_static}

-- The fields that take no object, by the first character of the descriptor.
abbrev pub is_basic : Bool → ℕ → Bool
is_basic fp c =
    (c == 66)
    || (c == 67)
    || (fp && (c == 68))
    || (fp && (c == 70))
    || (c == 73)
    || (c == 74)
    || (c == 83)
    || (c == 90)

-- The `while` loop over the dimensions of an array, or a jump to the exception.
unfoldable pub skip_dimensions : List ℕ → ℕ → Option (List ℕ)
skip_dimensions [] dimensions = some []
skip_dimensions (c ∷ rest) dimensions =
    let further = skip_dimensions rest (dimensions + 1) in
    if c == 91
    then (if (at_place rest == 0) || leb 256 (dimensions + 1) then none else further)
    else some (c ∷ rest)

-- The inner `switch`, behind the dimensions.
unfoldable pub parse_element : Bool → List ℕ → Bool
parse_element fp i =
    if is_basic fp (at_place i)
    then at_place (behind i) == 0
    else if at_place i == 76
    then not (at_place (skip_name i) == 0)
    else false

-- Whether the function returns, or else throws.
unfoldable pub parse_field : Bool → List ℕ → Bool
parse_field fp desc =
    if is_basic fp (at_place desc)
    then at_place (behind desc) == 0
    else if at_place desc == 76
    then not (at_place (skip_name (behind desc)) == 0)
    else if at_place desc == 91
    then elim (skip_dimensions desc 0) [ none ↦ false | some i ↦ parse_element fp i ]
    else false

-- The size of a field; `none` is `dbg_unreachable`.
unfoldable pub field_size : Bool → List ℕ → Option ℕ
field_size fp desc =
    let c = at_place desc in
    if (c == 91) || (c == 76)
    then some 8
    else if (c == 66) || (c == 90)
    then some 1
    else if (c == 67) || (c == 83)
    then some 2
    else if (c == 73) || (fp && (c == 70))
    then some 4
    else if (c == 74) || (fp && (c == 68))
    then some 8
    else none

-- The member of the union in which a static field stands; `none` is `dbg_unreachable`.
pub data Member : Type 0 where
  jref : Member
  jbyte : Member
  jchar : Member
  jshort : Member
  jint : Member
  jlong : Member
  jfloat : Member
  jdouble : Member

unfoldable pub static_field_data : Bool → List ℕ → Option Member
static_field_data fp desc =
    let c = at_place desc in
    if (c == 76) || (c == 91)
    then some Member.jref
    else if (c == 66) || (c == 90)
    then some Member.jbyte
    else if c == 67
    then some Member.jchar
    else if c == 83
    then some Member.jshort
    else if c == 73
    then some Member.jint
    else if c == 74
    then some Member.jlong
    else if fp && (c == 70)
    then some Member.jfloat
    else if fp && (c == 68)
    then some Member.jdouble
    else none

-- `sizeof` of a member.
abbrev pub member_size : Member → ℕ
member_size Member.jref = 8
member_size Member.jbyte = 1
member_size Member.jchar = 2
member_size Member.jshort = 2
member_size Member.jint = 4
member_size Member.jlong = 8
member_size Member.jfloat = 4
member_size Member.jdouble = 8

-- `struct field_t`
pub record Field : Type 0 where
  pub name : List ℕ
  pub descriptor : List ℕ
  pub access_flags : ℕ
  pub offset : ℕ

abbrev pub field_is_static : Field → Bool
field_is_static f = has_flag f.access_flags acc_static

-- `struct field_iterator_t`, without the end, at which the lists end.
pub record FieldIterator : Type 0 where
  pub next : List Field
  pub stat : Bool

abbrev pub same_bool : Bool → Bool → Bool
same_bool true b = b
same_bool false b = not b

unfoldable pub itr_find_next : List Field → Bool → List Field
itr_find_next [] stat = []
itr_find_next (curr ∷ rest) stat =
    let further = itr_find_next rest stat in
    if same_bool (field_is_static curr) stat then curr ∷ rest else further

unfoldable pub field_itr : List Field → Bool → FieldIterator
field_itr fields stat = record { next = itr_find_next fields stat; stat = stat }

-- The next field, if `field_itr_has_next`, and the iterator behind it.
unfoldable pub itr_get_next : FieldIterator → Option (Field × FieldIterator)
itr_get_next itr = elim itr.next [
  | [] ↦ none
  | field ∷ rest ↦ some (field, record itr { next = itr_find_next rest itr.stat })
]
