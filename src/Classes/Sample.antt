-- ===== src/Classes/Sample.antt =====
-- A hierarchy of Object, an interface, a class that implements it, a class below that one, and an array,
-- for the tests.
use jelatine.Common.{ℕ, refl, false, none, some, List, [], ◌∷◌, arith}
use jelatine.Classes.Hierarchy.{Class, im_is_present, im_add, im_add_all}
use jelatine.Classes.Linking.{
  Request, Loaded, require, flags_sound, parent_sound, derive_class, load_declared, load_interfaces,
  load_array, load_class,
}
use jelatine.Classes.Linking.Order.{Hierarchy, Reach, OneRoot, link}

abbrev pub blank : Class
blank = record {
  name = [];
  parent = 0;
  access_flags = 0;
  elem_type = 0;
  elem_class = 0;
  interface_manager = some [];
}

abbrev pub request : List ℕ → ℕ → ℕ → List ℕ → ℕ → Request
request name flags parent interfaces element = record {
  name = name;
  file = record {
    magic = 0xCAFEBABE;
    major = 47;
    access_flags = flags;
    this_class = name;
    parent = parent;
    interfaces = interfaces;
  };
  element = element;
}

-- What loading gives, or else a blank class.
abbrev pub made : Loaded → Class
made (Loaded.loaded cl) = cl
made Loaded.thrown = blank
made Loaded.null_pointer = blank

abbrev pub nothing : Hierarchy
nothing = record {
  classes = λ _. blank;
  requests = λ _. request [] 0 0 [] 0;
  turn = λ _. 0;
  count = 0;
}

abbrev pub object_request : Request
object_request = request (79 ∷ []) 0x21 0 [] 0

abbrev pub interface_request : Request
interface_request = request (73 ∷ []) 0x601 1 [] 0

abbrev pub parent_request : Request
parent_request = request (80 ∷ []) 0x21 1 (2 ∷ []) 0

abbrev pub child_request : Request
child_request = request (67 ∷ []) 0x21 3 [] 0

-- The array of the children.
abbrev pub array_request : Request
array_request = request (91 ∷ 76 ∷ 67 ∷ 59 ∷ []) 0 0 [] 4

abbrev pub regular : List ℕ → ℕ → ℕ → List ℕ → Class
regular name flags parent im = record {
  name = name;
  parent = parent;
  access_flags = flags;
  elem_type = 0;
  elem_class = 0;
  interface_manager = some im;
}

abbrev pub array_of : List ℕ → ℕ → Class
array_of name element = record {
  name = name;
  parent = 1;
  access_flags = 0x1021;
  elem_type = 8;
  elem_class = element;
  interface_manager = none;
}

abbrev pub one : Hierarchy
one = link nothing 1 object_request (regular (79 ∷ []) 0x21 0 [])

abbrev pub two : Hierarchy
two = link one 2 interface_request (regular (73 ∷ []) 0x601 1 [])

abbrev pub three : Hierarchy
three = link two 3 parent_request (regular (80 ∷ []) 0x21 1 (2 ∷ []))

abbrev pub four : Hierarchy
four = link three 4 child_request (regular (67 ∷ []) 0x21 3 (2 ∷ []))

abbrev pub five : Hierarchy
five = link four 5 array_request (array_of (91 ∷ 76 ∷ 67 ∷ 59 ∷ []) 4)

pub five-Reach : Reach false 1 five
unfolding load_class require derive_class flags_sound parent_sound load_interfaces load_declared
    load_array im_add im_add_all im_is_present
five-Reach =
    Reach.next
      (Reach.next
        (Reach.next
          (Reach.next
            (Reach.start nothing object_request _ (λ a. refl) refl (omega arith) refl refl refl) 2
            interface_request _ (omega arith) refl ((omega arith, omega arith), tt) refl)
          3 parent_request _ (omega arith) refl
          ((omega arith, omega arith), ((omega arith, omega arith), tt)) refl)
        4 child_request _ (omega arith) refl ((omega arith, omega arith), tt) refl)
      5 array_request _ (omega arith) refl ((omega arith, omega arith), tt) refl

pub five-OneRoot : OneRoot 1 five
five-OneRoot c linked top = ground arith
