-- ===== src/Descriptor/Accepts.antt =====
-- `parse_method_descriptor` on what the grammar prints.
use jelatine.Common.{
  ℕ, ◌+◌, ◌*◌, ◌%◌, ◌^◌, ◌≤◌, ◌<◌, ◌≡◌, ◌≢◌, refl, Bool, true, false, some, List, [], ◌∷◌, ◌++◌,
  arith, leb, if◌then◌else◌, length, length-append, All,
}
use jelatine.Descriptor.{at_place, Parsed, arguments_max, finish, parse}
use jelatine.Descriptor.Grammar.{
  FieldType, ReturnType, print, print_all, print_return, descriptor, slots, slots_all, WellFormed,
  LaxReturn,
}
use jelatine.Descriptor.Arguments.{arguments_pass-print_all}
use jelatine.Descriptor.Returns.{return_type_pass-Last}

-- What is stored for so many slots of arguments, to which the object is added if the method is not
-- static.
abbrev pub stored : Bool → ℕ → Parsed
stored is_static n =
    let total = if is_static then n else n + 1 in
    if leb arguments_max total then Parsed.too_many else Parsed.size total

finish-last :
    (is_static : Bool) (n c : ℕ)
    → n + 1 < 2 ^ 32
    → finish is_static n (some (c ∷ [])) ≡ stored is_static n
unfolding finish
finish-last true n c h = refl
finish-last false n c h =
    let wrap : (n + 1) % 2 ^ 32 ≡ n + 1 = omega arith in rw (finish, wrap) refl

print_facts : (t : FieldType) → (at_place (print t) ≢ 0) × (slots t ≤ 2 * length (print t))
print_facts (FieldType.object name) = (ground arith, omega arith)
print_facts (FieldType.array t) = (ground arith, omega arith)
print_facts FieldType.byte = (ground arith, omega arith)
print_facts FieldType.char = (ground arith, omega arith)
print_facts FieldType.short = (ground arith, omega arith)
print_facts FieldType.boolean = (ground arith, omega arith)
print_facts FieldType.int = (ground arith, omega arith)
print_facts FieldType.float = (ground arith, omega arith)
print_facts FieldType.long = (ground arith, omega arith)
print_facts FieldType.double = (ground arith, omega arith)

length-slots : (ts : List FieldType) → slots_all ts ≤ 2 * length (print_all ts)
length-slots [] = omega arith
length-slots (t ∷ ts) =
    omega (arith, length-append (print t) (print_all ts), (print_facts t).1, length-slots ts)

starts : (ret : ReturnType) → at_place (print_return ret) ≢ 0
starts ReturnType.void = ground arith
starts (ReturnType.value t) = (print_facts t).0

-- On the descriptor of at most 65535 characters of any argument and return types with class names
-- that are not empty, `parse_method_descriptor` counts the slots of the arguments, two for each
-- `long` and `double` and one for everything else, and one more unless the method is static; it
-- throws only if these are 16 or more. The descriptor of a method that returns an array of a class
-- whose name is empty is taken in the same way.
pub parse-descriptor :
    (is_static : Bool) (ts : List FieldType) (ret : ReturnType)
    → All WellFormed ts
    → LaxReturn ret
    → length (descriptor ts ret) < 2 ^ 16
    → parse is_static (descriptor ts ret) ≡ stored is_static (slots_all ts)
unfolding parse
parse-descriptor is_static ts ret w l short =
    let joined : length (print_all ts ++ (41 ∷ print_return ret))
        ≡ length (print_all ts) + length (41 ∷ print_return ret) =
      length-append (print_all ts) (41 ∷ print_return ret) in
    let few = length-slots ts in
    let (c, e) = return_type_pass-Last ret l in
    let sum : 0 + slots_all ts ≡ slots_all ts = omega arith in
    rw
      (
        arguments_pass-print_all ts (print_return ret) 0 w (omega arith) (omega arith) (starts ret),
        sum,
        e,
      )
      (finish-last is_static (slots_all ts) c (omega arith))
