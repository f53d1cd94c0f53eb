-- ===== src/Classes/Subtypes/Tests.antt =====
-- Assignability in a small hierarchy.
use jelatine.Common.{◌≡◌, ◌↔◌, refl, Bool, true, false, some, [], ◌∷◌, arith}
use jelatine.Classes.Hierarchy.{bcl_is_assignable, climb, im_is_present}
use jelatine.Classes.Linking.{
  Collection, Loaded, require, flags_sound, parent_sound, derive_class, load_declared,
  load_interfaces,
}
use jelatine.Classes.Subtypes.{Subtype}
use jelatine.Classes.Subtypes.Equivalence.{bcl_is_assignable-Subtype_iff}
use jelatine.Classes.Sample.{array_of, five, five-Reach, five-OneRoot, request, regular}

-- The child against the interface of its parent.
bcl_is_assignable-Subtype_iff_example :
    (b : Bool) × (bcl_is_assignable 4 five.classes 4 2 ≡ some b) × ((b ≡ true) ↔ Subtype five 4 2)
bcl_is_assignable-Subtype_iff_example =
    bcl_is_assignable-Subtype_iff false 1 five five-Reach five-OneRoot 4 4 2 (omega arith)
      (omega arith) (omega arith)

child_interface : bcl_is_assignable 4 five.classes 4 2 ≡ some true
unfolding bcl_is_assignable im_is_present
child_interface = refl

array_object : bcl_is_assignable 5 five.classes 5 1 ≡ some true
unfolding bcl_is_assignable
array_object = refl

array_array : bcl_is_assignable 5 five.classes 5 5 ≡ some true
unfolding bcl_is_assignable climb
array_array = refl

-- An interface in a class-file that is an array of interfaces passes the check for interfaces, and its
-- interface manager, which arrays have not, is read.
array_interface :
    load_declared (λ _. record (array_of [] 2) { access_flags = 0x1601 }) [] (5 ∷ [])
    ≡ Collection.null_pointer
unfolding load_declared
array_interface = refl

-- A class without a parent is accepted under any name.
no_parent :
    derive_class five.classes (88 ∷ []) (request (88 ∷ []) 1 0 [] 0).file
    ≡ Loaded.loaded (regular (88 ∷ []) 1 0 [])
unfolding derive_class require flags_sound parent_sound load_interfaces load_declared
no_parent = refl
