-- ===== src/Descriptor/Tests.antt =====
-- Descriptors that are read and refused.
use jelatine.Descriptor.Grammar.{FieldType, ReturnType, descriptor}
use jelatine.Descriptor.Accepts.{stored, parse-descriptor}
use jelatine.Common.{arith, ◌≡◌, refl, true, false, [], ◌∷◌}
use jelatine.Descriptor.{
  Parsed, parse, arguments_pass, class_name, skip_name, skip_brackets, return_type_pass, finish,
}

-- `()[L;` is accepted.
nameless : parse true (40 ∷ 41 ∷ 91 ∷ 76 ∷ 59 ∷ []) ≡ Parsed.size 0
unfolding parse arguments_pass class_name skip_name skip_brackets return_type_pass finish
nameless = refl

-- `([)V` is not.
dangling : parse true (40 ∷ 91 ∷ 41 ∷ 86 ∷ []) ≡ Parsed.malformed
unfolding parse arguments_pass class_name skip_name skip_brackets return_type_pass finish
dangling = refl

-- `([JDLa;)[[L;`: the array counts one slot, the number two and the object one.
parse-descriptor_example :
    parse false (
      descriptor
        (FieldType.array FieldType.long ∷ FieldType.double ∷ FieldType.object (97 ∷ []) ∷ [])
        (ReturnType.value (FieldType.array (FieldType.array (FieldType.object [])))))
    ≡ stored false 4
parse-descriptor_example =
    parse-descriptor false
      (FieldType.array FieldType.long ∷ FieldType.double ∷ FieldType.object (97 ∷ []) ∷ [])
      (ReturnType.value (FieldType.array (FieldType.array (FieldType.object []))))
      (tt, (tt, (((λ e. cc), ((omega arith, omega arith), tt)), tt))) tt (omega arith)
