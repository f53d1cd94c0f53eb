-- ===== src/Fields/Iteration.antt =====
-- What a loop over the iterator visits.
use jelatine.Common.{
  ℕ, zero, suc, ◌≡◌, ◌<◌, refl, inl, inr, Bool, Option, none, some, List, [], ◌∷◌, arith,
  if◌then◌else◌, length, Bool-cases,
}
use jelatine.Fields.{
  Field, FieldIterator, field_is_static, same_bool, itr_find_next, field_itr, itr_get_next,
}

-- The fields that a `while` loop gets from the iterator, on fuel; `none` if that is used up.
unfoldable pub visit : ℕ → FieldIterator → Option (List Field)
visit zero itr = none
visit (suc fuel) itr = elim (itr_get_next itr) [
  | none ↦ some []
  | some (field, itr') ↦ elim (visit fuel itr') [
    | none ↦ none
    | some fields ↦ some (field ∷ fields)
  ]
]

-- The static fields, or the others, in order.
abbrev pub fields_of : Bool → List Field → List Field
fields_of stat [] = []
fields_of stat (f ∷ fields) =
    if same_bool (field_is_static f) stat then f ∷ fields_of stat fields else fields_of stat fields

-- A loop over the iterator ends on more fuel than there are fields, and visits the static fields of
-- the class, or the others, once each and in order.
pub visit-field_itr :
    (fuel : ℕ) (fields : List Field) (stat : Bool)
    → length fields < fuel
    → visit fuel (field_itr fields stat) ≡ some (fields_of stat fields)
unfolding visit field_itr itr_get_next itr_find_next
visit-field_itr zero fields stat h = absurd (omega arith)
visit-field_itr (suc fuel) [] stat h = refl
visit-field_itr (suc fuel) (f ∷ fields) stat h =
    elim (Bool-cases (same_bool (field_is_static f) stat)) [
      | inl t ↦ rw (t, visit-field_itr fuel fields stat (omega arith)) refl
      | inr e ↦ rw e (visit-field_itr (suc fuel) fields stat (omega arith))
    ]
