-- ===== src/Classes/Hierarchy.antt =====
-- The hierarchy of the classes: src/jelatine/class.c (`im_add`, `im_is_present`, `class_is_parent`) and
-- `bcl_is_assignable` of src/jelatine/loader.c. An address is a number, and 0 is `NULL`; `s` gives the
-- structure at an address, and the pointer array of an interface manager is a list.
use jelatine.Common.{
  ℕ, zero, suc, Bool, true, false, ◌&&◌, ◌||◌, Option, none, some, List, [], ◌∷◌, ◌++◌, ◌==◌,
  if◌then◌else◌,
}
use jelatine.Methods.{has_flag, acc_final}
use jelatine.Collector.{acc_array, pt_reference}

pub record Class : Type 0 where
  pub name : List ℕ
  pub parent : ℕ
  pub access_flags : ℕ
  pub elem_type : ℕ
  pub elem_class : ℕ
  pub interface_manager : Option (List ℕ)

abbrev pub Store : Type 0
Store = ℕ → Class

abbrev pub acc_interface : ℕ
acc_interface = 0x0200

-- CLASS_ACC_FLAGS_MASK
abbrev pub class_acc_flags_mask : ℕ
class_acc_flags_mask = 0x0631

abbrev pub class_is_object : Class → Bool
class_is_object cl = cl.parent == 0

abbrev pub class_is_array : Class → Bool
class_is_array cl = has_flag cl.access_flags acc_array

abbrev pub class_is_interface : Class → Bool
class_is_interface cl = has_flag cl.access_flags acc_interface

abbrev pub class_is_final : Class → Bool
class_is_final cl = has_flag cl.access_flags acc_final

unfoldable pub im_is_present : List ℕ → ℕ → Bool
im_is_present [] interface = false
im_is_present (i ∷ interfaces) interface = (i == interface) || im_is_present interfaces interface

unfoldable pub im_add : List ℕ → ℕ → List ℕ
im_add im cl = if im_is_present im cl then im else im ++ (cl ∷ [])

-- The loops that add what an iterator gives.
unfoldable pub im_add_all : List ℕ → List ℕ → List ℕ
im_add_all im [] = im
im_add_all im (i ∷ rest) = im_add_all (im_add im i) rest

-- The loop up the hierarchy, on fuel; `none` is no more fuel.
unfoldable pub class_is_parent : ℕ → Store → ℕ → ℕ → Option Bool
class_is_parent zero s parent child = none
class_is_parent (suc fuel) s parent child =
    let rest = class_is_parent fuel s parent (s child).parent in
    if parent == (s child).parent
    then some true
    else if (s child).parent == 0
    then some false
    else rest

-- The loop for two classes that are neither arrays nor interfaces.
unfoldable pub climb : ℕ → Store → ℕ → ℕ → Option Bool
climb zero s src dest = none
climb (suc fuel) s src dest =
    let rest = climb fuel s (s src).parent dest in
    if (s src).parent == 0 then some false else if (s src).parent == dest then some true else rest

abbrev pub present_in : Option (List ℕ) → ℕ → Option Bool
present_in none dest = none
present_in (some im) dest = some (im_is_present im dest)

-- `none` is no more fuel, or a read through a null pointer.
unfoldable pub bcl_is_assignable : ℕ → Store → ℕ → ℕ → Option Bool
bcl_is_assignable zero s src dest = none
bcl_is_assignable (suc fuel) s src dest =
    let elements = bcl_is_assignable fuel s (s src).elem_class (s dest).elem_class in
    if class_is_array (s src)
    then if class_is_array (s dest)
      then if ((s src).elem_type == pt_reference) && ((s dest).elem_type == pt_reference)
        then elements
        else some ((s src).elem_type == (s dest).elem_type)
      else if class_is_interface (s dest)
      then some false
      else some (class_is_object (s dest))
    else if class_is_interface (s src)
    then if class_is_interface (s dest)
      then (if src == dest then some true else present_in (s src).interface_manager dest)
      else some (class_is_object (s dest))
    else if class_is_interface (s dest)
    then present_in (s src).interface_manager dest
    else if src == dest
    then some true
    else climb (suc fuel) s src dest
