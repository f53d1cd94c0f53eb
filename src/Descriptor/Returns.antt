-- ===== src/Descriptor/Returns.antt =====
-- The return types that `return_type_pass` reads to the end.
use jelatine.Common.{
  ℕ, ◌+◌, ◌≤◌, ◌<◌, ◌≡◌, refl, false, Option, some, List, [], ◌∷◌, ◌++◌, arith, ◌==◌, length,
  length-append, All,
}
use jelatine.Descriptor.{skip_name, skip_brackets, return_type_pass}
use jelatine.Descriptor.Grammar.{
  FieldType, ReturnType, print, print_return, NameChar, Lax, LaxReturn,
}
use jelatine.Descriptor.Arguments.{char_tests}

-- The place of the last character of a return type.
abbrev pub Last : Option (List ℕ) → Type 0
Last o = (c : ℕ) × (o ≡ some (c ∷ []))

skip_name-name : (name : List ℕ) → All NameChar name → skip_name (name ++ (59 ∷ [])) ≡ 59 ∷ []
unfolding skip_name
skip_name-name [] h = refl
skip_name-name (c ∷ name) (p, h) =
    let tests = char_tests c p in rw (tests.0, tests.1) (skip_name-name name h)

-- The element type of an array of arrays.
abbrev NotArray : FieldType → Type 0
NotArray (FieldType.array t) = 1 < 1
NotArray t = Unit {0}

skip_brackets-print :
    (t : FieldType)
    → Lax t
    → (b : FieldType) × (skip_brackets (print t) ≡ print b)
      × NotArray b
      × Lax b
      × (length (print b) ≤ length (print t))
unfolding skip_brackets
skip_brackets-print (FieldType.object name) w = (FieldType.object name, refl, tt, w, omega arith)
skip_brackets-print (FieldType.array t) w =
    let (b, e, n, l, le) = skip_brackets-print t w in (b, e, n, l, omega arith)
skip_brackets-print FieldType.byte w = (FieldType.byte, refl, tt, tt, omega arith)
skip_brackets-print FieldType.char w = (FieldType.char, refl, tt, tt, omega arith)
skip_brackets-print FieldType.short w = (FieldType.short, refl, tt, tt, omega arith)
skip_brackets-print FieldType.boolean w = (FieldType.boolean, refl, tt, tt, omega arith)
skip_brackets-print FieldType.int w = (FieldType.int, refl, tt, tt, omega arith)
skip_brackets-print FieldType.float w = (FieldType.float, refl, tt, tt, omega arith)
skip_brackets-print FieldType.long w = (FieldType.long, refl, tt, tt, omega arith)
skip_brackets-print FieldType.double w = (FieldType.double, refl, tt, tt, omega arith)

array-Last :
    (b : FieldType) (rest : List ℕ)
    → skip_brackets (91 ∷ rest) ≡ print b
    → NotArray b
    → Lax b
    → length (print b) ≤ length rest
    → Last (return_type_pass (91 ∷ rest))
unfolding return_type_pass skip_name
array-Last (FieldType.object name) rest e n w le =
    let long : length (name ++ (59 ∷ [])) ≡ length name + 1 = length-append name (59 ∷ []) in
    let far : (1 == length rest) ≡ false = ground arith in
    (59, rw (e, skip_name-name name w, far) refl)
array-Last (FieldType.array t) rest e n w le = absurd (omega arith)
array-Last FieldType.byte rest e n w le = (66, rw e refl)
array-Last FieldType.char rest e n w le = (67, rw e refl)
array-Last FieldType.short rest e n w le = (83, rw e refl)
array-Last FieldType.boolean rest e n w le = (90, rw e refl)
array-Last FieldType.int rest e n w le = (73, rw e refl)
array-Last FieldType.float rest e n w le = (70, rw e refl)
array-Last FieldType.long rest e n w le = (74, rw e refl)
array-Last FieldType.double rest e n w le = (68, rw e refl)

pub return_type_pass-Last :
    (ret : ReturnType) → LaxReturn ret → Last (return_type_pass (print_return ret))
unfolding return_type_pass
return_type_pass-Last ReturnType.void w = (86, refl)
return_type_pass-Last (ReturnType.value (FieldType.object [])) w = absurd (w.0 refl)
return_type_pass-Last (ReturnType.value (FieldType.object (c ∷ name))) w =
    let long : length (name ++ (59 ∷ [])) ≡ length name + 1 = length-append name (59 ∷ []) in
    let far : (1 == length (c ∷ (name ++ (59 ∷ [])))) ≡ false = ground arith in
    (59, rw (skip_name-name (c ∷ name) w.1, far) refl)
return_type_pass-Last (ReturnType.value (FieldType.array t)) w =
    let (b, e, n, l, le) = skip_brackets-print t w in
    array-Last b (print t) (unfold skip_brackets in e) n l le
return_type_pass-Last (ReturnType.value FieldType.byte) w = (66, refl)
return_type_pass-Last (ReturnType.value FieldType.char) w = (67, refl)
return_type_pass-Last (ReturnType.value FieldType.short) w = (83, refl)
return_type_pass-Last (ReturnType.value FieldType.boolean) w = (90, refl)
return_type_pass-Last (ReturnType.value FieldType.int) w = (73, refl)
return_type_pass-Last (ReturnType.value FieldType.float) w = (70, refl)
return_type_pass-Last (ReturnType.value FieldType.long) w = (74, refl)
return_type_pass-Last (ReturnType.value FieldType.double) w = (68, refl)
