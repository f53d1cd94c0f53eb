-- ===== src/Classes/Access/Tests.antt =====
-- Packages and access to fields in concrete cases.
use jelatine.Common.{◌≡◌, ◌↔◌, refl, Bool, true, false, some, [], ◌∷◌, arith}
use jelatine.Classes.Hierarchy.{class_is_parent}
use jelatine.Classes.Sample.{five, five-Reach, five-OneRoot}
use jelatine.Classes.Access.{last_slash, same_bytes, same_package, verify_field_access}
use jelatine.Classes.Access.Packages.{package_of, same_package-package_of}
use jelatine.Classes.Access.Accessible.{Accessible, verify_field_access-Accessible}

-- "a/b/C" and "a/b/D"
same_package-package_of_example :
    (same_package (97 ∷ 47 ∷ 98 ∷ 47 ∷ 67 ∷ []) (97 ∷ 47 ∷ 98 ∷ 47 ∷ 68 ∷ []) ≡ true)
    ↔ (package_of (97 ∷ 47 ∷ 98 ∷ 47 ∷ 67 ∷ []) ≡ package_of (97 ∷ 47 ∷ 98 ∷ 47 ∷ 68 ∷ []))
same_package-package_of_example =
    same_package-package_of (97 ∷ 47 ∷ 98 ∷ 47 ∷ 67 ∷ []) (97 ∷ 47 ∷ 98 ∷ 47 ∷ 68 ∷ [])
      (omega arith) (omega arith)

-- "a/b/C" and "a/C"
other_package : same_package (97 ∷ 47 ∷ 98 ∷ 47 ∷ 67 ∷ []) (97 ∷ 47 ∷ 67 ∷ []) ≡ false
unfolding same_package last_slash same_bytes
other_package = refl

-- A protected field of the parent, for the child.
verify_field_access-Accessible_example :
    (b : Bool) × (verify_field_access 4 five.classes 4 3 4 ≡ some b)
    × ((b ≡ true) ↔ Accessible five 4 3 4)
verify_field_access-Accessible_example =
    verify_field_access-Accessible false 1 five five-Reach five-OneRoot 4 4 3 4 (omega arith)
      (omega arith) (omega arith) refl (omega arith) (omega arith)

protected_field : verify_field_access 4 five.classes 4 3 4 ≡ some true
unfolding verify_field_access class_is_parent same_package last_slash
protected_field = refl

private_field : verify_field_access 4 five.classes 4 3 2 ≡ some false
unfolding verify_field_access
private_field = refl
