-- ===== src/Classes/Members/Tests.antt =====
-- The fields of a small class.
use jelatine.Common.{ℕ, ◌≡◌, refl, false, none, some, List, [], ◌∷◌, map}
use jelatine.Fields.{parse_field}
use jelatine.Classes.Members.{
  FieldInfo, is_duplicate, verify_field, added_field, class_add_field, load_fields,
}

abbrev info : List ℕ → List ℕ → ℕ → FieldInfo
info name descriptor flags = record {
  access_flags = flags;
  name = name;
  descriptor = descriptor;
  constant_value = none;
}

-- A static int with the constant number 7, and a byte.
abbrev infos : List FieldInfo
infos =
    record (info (97 ∷ []) (73 ∷ []) 0x1009) { constant_value = some 7 }
    ∷ info (98 ∷ []) (66 ∷ []) 2
    ∷ []

load_infos : load_fields false false infos [] ≡ some (map added_field infos)
unfolding load_fields verify_field class_add_field added_field is_duplicate parse_field
load_infos = refl

-- Two fields with the same name and descriptor.
abbrev twice : List FieldInfo
twice = info (97 ∷ []) (73 ∷ []) 0 ∷ info (97 ∷ []) (73 ∷ []) 8 ∷ []
