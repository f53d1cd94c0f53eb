-- ===== src/Fields/Tests.antt =====
-- Fields of concrete classes.
use jelatine.Common.{ℕ, ◌≡◌, refl, true, false, some, [], ◌∷◌, ◌++◌, arith}
use jelatine.Descriptor.Grammar.{FieldType, print}
use jelatine.Fields.{
  Field, Member, parse_field, skip_dimensions, parse_element, static_field_data, field_size,
  member_size, field_itr,
}
use jelatine.Fields.Iteration.{visit, visit-field_itr}
use jelatine.Fields.Shapes.{parse_field-field_size, parse_field-print}

-- `[I`
ints : parse_field false (91 ∷ 73 ∷ []) ≡ true
unfolding parse_field skip_dimensions parse_element
ints = refl

-- `F`, where the configuration has no floating point
no_floats : parse_field false (70 ∷ []) ≡ false
unfolding parse_field
no_floats = refl

parse_field-field_size_example :
    (member : Member) × (static_field_data false (91 ∷ 73 ∷ []) ≡ some member)
    × (field_size false (91 ∷ 73 ∷ []) ≡ some (member_size member))
parse_field-field_size_example = parse_field-field_size false (91 ∷ 73 ∷ []) ints

-- `[La;` with an `x` behind it
parse_field-print_example :
    parse_field false (print (FieldType.array (FieldType.object (97 ∷ []))) ++ (120 ∷ [])) ≡ true
parse_field-print_example =
    parse_field-print false (FieldType.array (FieldType.object (97 ∷ []))) (120 ∷ [])
      ((omega arith, omega arith), tt) tt (omega arith) tt

-- A static field between two others.
abbrev field : ℕ → ℕ → Field
field c access_flags = record {
  name = c ∷ [];
  descriptor = 73 ∷ [];
  access_flags = access_flags;
  offset = 0;
}

visit-field_itr_example :
    visit 4 (field_itr (field 97 1 ∷ field 98 9 ∷ field 99 2 ∷ []) false)
    ≡ some (field 97 1 ∷ field 99 2 ∷ [])
visit-field_itr_example =
    visit-field_itr 4 (field 97 1 ∷ field 98 9 ∷ field 99 2 ∷ []) false (omega arith)
