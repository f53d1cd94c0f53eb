-- ===== src/Descriptor.antt =====
-- `parse_method_descriptor` of src/jelatine/method.c, which counts the stack slots that a call
-- passes. A place in the descriptor is the list of its characters from there to the terminator, so
-- what is read at the end is 0; two places of one descriptor are the same when as much is left.
pub mod Grammar
pub mod Arguments
pub mod Returns
pub mod Accepts
mod Tests
use jelatine.Common.{
  ℕ, zero, suc, ◌+◌, ◌%◌, ◌^◌, Bool, true, false, not, ◌&&◌, ◌||◌, Option, none, some, List, [],
  ◌∷◌, leb, ◌==◌, if◌then◌else◌, length,
}

-- `desc[i]` at a place, and the place behind it.
abbrev pub at_place : List ℕ → ℕ
at_place [] = 0
at_place (c ∷ rest) = c

abbrev pub behind : List ℕ → List ℕ
behind [] = []
behind (c ∷ rest) = rest

-- The labels of the `switch` over the arguments.
pub data Label : Type 0 where
  close : Label
  one_slot : Label
  two_slots : Label
  class_type : Label
  array_type : Label
  other : Label

abbrev pub label : ℕ → Label
label c =
    if c == 41
    then Label.close
    else if (c == 66) || (c == 67) || (c == 83) || (c == 90) || (c == 73) || (c == 70)
    then Label.one_slot
    else if (c == 74) || (c == 68)
    then Label.two_slots
    else if c == 76
    then Label.class_type
    else if c == 91
    then Label.array_type
    else Label.other

-- Where the arguments end, with their slots, or a jump to the exception.
pub data Pass : Type 0 where
  bad_arguments : Pass
  at_return : List ℕ → ℕ → Pass

-- `arguments_pass`, with the number of dimensions and the slots so far, and its `while` loop over a
-- class name, which is told whether the name is empty so far.
unfoldable mutual
  pub arguments_pass : List ℕ → ℕ → ℕ → Pass
  arguments_pass [] dimensions args_size = Pass.bad_arguments
  arguments_pass (c ∷ rest) dimensions args_size = elim (label c) [
    | Label.close ↦
        if not (dimensions == 0) || (at_place rest == 0)
        then Pass.bad_arguments
        else Pass.at_return rest args_size
    | Label.one_slot ↦ arguments_pass rest 0 ((args_size + 1) % 2 ^ 32)
    | Label.two_slots ↦
        arguments_pass rest 0 ((args_size + (if dimensions == 0 then 2 else 1)) % 2 ^ 32)
    | Label.class_type ↦ class_name rest true args_size
    | Label.array_type ↦ arguments_pass rest ((dimensions + 1) % 2 ^ 32) args_size
    | Label.other ↦ Pass.bad_arguments
  ]

  pub class_name : List ℕ → Bool → ℕ → Pass
  class_name [] empty args_size = Pass.bad_arguments
  class_name (c ∷ rest) empty args_size = elim (c == 59) [
    | true ↦ elim empty [
      | true ↦ Pass.bad_arguments
      | false ↦ arguments_pass rest 0 ((args_size + 1) % 2 ^ 32)
    ]
    | false ↦ elim (c == 0) [ true ↦ Pass.bad_arguments | false ↦ class_name rest false args_size ]
  ]

-- The `while` loops of `return_type_pass`.
unfoldable pub skip_name : List ℕ → List ℕ
skip_name [] = []
skip_name (c ∷ rest) =
    let further = skip_name rest in if (c == 59) || (c == 0) then c ∷ rest else further

unfoldable pub skip_brackets : List ℕ → List ℕ
skip_brackets [] = []
skip_brackets (c ∷ rest) = let further = skip_brackets rest in if c == 91 then further else c ∷ rest

abbrev pub is_primitive : ℕ → Bool
is_primitive c =
    (c == 66)
    || (c == 67)
    || (c == 68)
    || (c == 70)
    || (c == 73)
    || (c == 74)
    || (c == 83)
    || (c == 90)

-- `return_type_pass`: the place of the last character, or a jump to the exception.
unfoldable pub return_type_pass : List ℕ → Option (List ℕ)
return_type_pass i =
    if (at_place i == 86) || is_primitive (at_place i)
    then some i
    else if at_place i == 76
    then (let j = skip_name (behind i) in
        if (at_place j == 0) || (length j == length (behind i)) then none else some j)
    else if at_place i == 91
    then (let j = skip_brackets i in
        if at_place j == 76
        then (let k = skip_name j in
            if (at_place k == 0) || (length k == length (behind i)) then none else some k)
        else if is_primitive (at_place j)
        then some j
        else none)
    else none

-- What is stored in the method, or the exception that is thrown.
pub data Parsed : Type 0 where
  size : ℕ → Parsed
  too_many : Parsed
  malformed : Parsed

abbrev pub arguments_max : ℕ
arguments_max = 2 ^ 4

-- The end of the function, behind the return type.
unfoldable pub finish : Bool → ℕ → Option (List ℕ) → Parsed
finish is_static args_size none = Parsed.malformed
finish is_static args_size (some i) =
    let total = if is_static then args_size else (args_size + 1) % 2 ^ 32 in
    if not (at_place (behind i) == 0)
    then Parsed.malformed
    else if leb arguments_max total
    then Parsed.too_many
    else Parsed.size total

unfoldable pub parse : Bool → List ℕ → Parsed
parse is_static desc =
    if at_place desc == 40
    then elim (arguments_pass (behind desc) 0 0) [
      | Pass.bad_arguments ↦ Parsed.malformed
      | Pass.at_return i args_size ↦ finish is_static args_size (return_type_pass i)
    ]
    else Parsed.malformed
