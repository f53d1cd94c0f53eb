-- ===== src/Classes/Members/Validity.antt =====
-- Which classes' fields `load_fields` of src/jelatine/loader.c accepts.
use jelatine.Common.{◌≡◌, Bool, true, false, ◌&&◌, List, [], ◌∷◌, All}
use jelatine.Strings.{same_chars}
use jelatine.Fields.{Field, parse_field}
use jelatine.Classes.Members.{FieldInfo, is_duplicate}
use jelatine.Classes.Members.Flags.{Sound}

-- Whether two fields have the same name and the same descriptor.
abbrev pub same_key : FieldInfo → FieldInfo → Bool
same_key i j = same_chars i.name j.name && same_chars i.descriptor j.descriptor

abbrev pub Different : List FieldInfo → Type 0
Different [] = Unit {0}
Different (i ∷ infos) = All (λ j. same_key i j ≡ false) infos × Different infos

-- No two fields have the same name and descriptor, and each has a sound descriptor and sound flags.
abbrev pub Valid : Bool → Bool → List FieldInfo → Type 0
Valid fp interface infos =
    Different infos
    × All (λ i. parse_field fp i.descriptor ≡ true) infos
    × All (Sound interface) infos

abbrev Unused : List Field → List FieldInfo → Type 0
Unused fields = All (λ j. is_duplicate fields j.name j.descriptor ≡ false)
