-- ===== src/Classes/Layout/Tests.antt =====
-- The layout of concrete classes.
use jelatine.Common.{ℕ, ◌-◌, ◌≡◌, refl, true, List, [], ◌∷◌, arith, replicate}
use jelatine.Util.{size_ceil}
use jelatine.Fields.{Field, parse_field, skip_dimensions, parse_element}
use jelatine.Classes.Layout.{
  Laid, kind, offset_kind, count_fields, assign_offsets, parent_size, laid_out, layout_fields,
}
use jelatine.Classes.Layout.Bounds.{Kept, layout_fields-Kept}

abbrev field : List ℕ → ℕ → Field
field descriptor offset = record {
  name = 97 ∷ [];
  descriptor = descriptor;
  access_flags = 0;
  offset = offset;
}

-- A byte, an int, an array of ints, a bool and a long, behind a parent with one reference and 4 bytes.
abbrev mixed : List Field
mixed =
    field (66 ∷ []) 0
    ∷ field (73 ∷ []) 0
    ∷ field (91 ∷ 73 ∷ []) 0
    ∷ field (90 ∷ []) 0
    ∷ field (74 ∷ []) 0
    ∷ []

-- The long stands first, behind the header and the 8 bytes of the parent's part; the array is the second
-- reference in front of the header.
mixed_offsets :
    layout_fields true (65 ∷ []) 1 4 mixed
    ≡ Laid.laid
        (field (66 ∷ []) 28
          ∷ field (73 ∷ []) 24
          ∷ field (91 ∷ 73 ∷ []) (65536 - 16)
          ∷ field (90 ∷ []) 232
          ∷ field (74 ∷ []) 16
          ∷ [])
        2
        22
unfolding layout_fields count_fields assign_offsets parent_size laid_out kind offset_kind size_ceil
mixed_offsets = refl

-- A class of 512 longs, which has no field of bit size, is refused for its fields of bit size.
many_longs :
    layout_fields true (65 ∷ []) 0 0 (replicate 512 (field (74 ∷ []) 0)) ≡ Laid.too_many_bits
unfolding layout_fields count_fields assign_offsets parent_size laid_out kind offset_kind size_ceil
many_longs = refl

layout_fields-Kept_example : Kept true 1 4 (layout_fields true (65 ∷ []) 1 4 mixed)
unfolding parse_field skip_dimensions parse_element
layout_fields-Kept_example =
    layout_fields-Kept true (65 ∷ []) 1 4 mixed refl (omega arith)
      (refl, (refl, (refl, (refl, (refl, tt)))))
