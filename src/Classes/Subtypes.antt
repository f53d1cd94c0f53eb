-- ===== src/Classes/Subtypes.antt =====
-- When a value of one class may stand for a value of another, by the rules of the language and
-- independently of `bcl_is_assignable` of src/jelatine/loader.c.
pub mod Views
pub mod Sound
pub mod Parents
pub mod Complete
pub mod Extends
pub mod Rules
pub mod Equivalence
mod Tests
use jelatine.Common.{ℕ, ◌≡◌, ◌≢◌, true, List, [], ◌==◌, if◌then◌else◌}
use jelatine.Collector.{pt_reference}
use jelatine.Descriptor.{at_place}
use jelatine.Classes.Hierarchy.{class_is_array, im_is_present}
use jelatine.Classes.Linking.{Request}
use jelatine.Classes.Linking.Order.{Hierarchy}

-- The interfaces in the class-file; an array class has none.
abbrev pub declared : Request → List ℕ
declared request = if at_place request.name == 91 then [] else request.file.interfaces

pub data Subtype (h : Hierarchy) : ℕ → ℕ → Type 0 where
  same : (c : ℕ) → Subtype h c c
  extends : (c d : ℕ) → (h.classes c).parent ≢ 0 → Subtype h (h.classes c).parent d → Subtype h c d
  implements :
      (c d i : ℕ) → im_is_present (declared (h.requests c)) i ≡ true → Subtype h i d → Subtype h c d
  covariant :
      (c d : ℕ)
      → class_is_array (h.classes c) ≡ true
      → class_is_array (h.classes d) ≡ true
      → (h.classes c).elem_type ≡ pt_reference
      → (h.classes d).elem_type ≡ pt_reference
      → Subtype h (h.classes c).elem_class (h.classes d).elem_class
      → Subtype h c d
  primitive :
      (c d : ℕ)
      → class_is_array (h.classes c) ≡ true
      → class_is_array (h.classes d) ≡ true
      → (h.classes c).elem_type ≡ (h.classes d).elem_type
      → (h.classes c).elem_type ≢ pt_reference
      → Subtype h c d
