-- ===== src/Descriptor/Arguments.antt =====
-- What the arguments of a descriptor are printed as is what `arguments_pass` counts.
use jelatine.Common.{
  ℕ, suc, ◌+◌, ◌%◌, ◌^◌, ◌<◌, ◌≡◌, ◌≢◌, refl, ap, ◌∙◌, Bool, true, false, List, [], ◌∷◌, ◌++◌,
  arith, ◌==◌, if◌then◌else◌, length, length-append, All,
}
use jelatine.Descriptor.{at_place, Pass, arguments_pass, class_name}
use jelatine.Descriptor.Grammar.{
  FieldType, print, print_all, slots, slots_all, NameChar, IsName, WellFormed,
}

pub append_assoc : (xs ys zs : List ℕ) → (xs ++ ys) ++ zs ≡ xs ++ (ys ++ zs)
append_assoc [] ys zs = refl
append_assoc (x ∷ xs) ys zs = ap (λ t. x ∷ t) (append_assoc xs ys zs)

pub char_tests : (c : ℕ) → NameChar c → ((c == 59) ≡ false) × ((c == 0) ≡ false)
char_tests c h = (ground arith, ground arith)

-- A class name is read to its end.
class_name-char :
    (c : ℕ) (rest : List ℕ) (empty : Bool) (size : ℕ)
    → NameChar c
    → class_name (c ∷ rest) empty size ≡ class_name rest false size
unfolding class_name arguments_pass
class_name-char c rest empty size p =
    let tests = char_tests c p in rw (class_name, tests.0, tests.1) refl

class_name-name :
    (name rest : List ℕ) (size : ℕ)
    → All NameChar name
    → class_name (name ++ (59 ∷ rest)) false size ≡ arguments_pass rest 0 ((size + 1) % 2 ^ 32)
unfolding class_name arguments_pass
class_name-name [] rest size h = refl
class_name-name (c ∷ name) rest size (p, h) =
    class_name-char c (name ++ (59 ∷ rest)) false size p ∙ class_name-name name rest size h

class_name-first :
    (name rest : List ℕ) (size : ℕ)
    → IsName name
    → class_name (name ++ (59 ∷ rest)) true size ≡ arguments_pass rest 0 ((size + 1) % 2 ^ 32)
class_name-first [] rest size h = absurd (h.0 refl)
class_name-first (c ∷ name) rest size (_, h) =
    class_name-char c (name ++ (59 ∷ rest)) true size h.0 ∙ class_name-name name rest size h.1

-- What an argument adds: one slot if it is in an array.
abbrev slots_in : ℕ → FieldType → ℕ
slots_in dimensions FieldType.long = if dimensions == 0 then 2 else 1
slots_in dimensions FieldType.double = if dimensions == 0 then 2 else 1
slots_in dimensions t = 1

slots_in-suc : (n : ℕ) (t : FieldType) → slots_in (suc n) t ≡ 1
slots_in-suc n FieldType.long = ground arith
slots_in-suc n FieldType.double = ground arith
slots_in-suc n t = refl

slots_in-zero : (t : FieldType) → slots_in 0 t ≡ slots t
slots_in-zero FieldType.byte = refl
slots_in-zero FieldType.char = refl
slots_in-zero FieldType.short = refl
slots_in-zero FieldType.boolean = refl
slots_in-zero FieldType.int = refl
slots_in-zero FieldType.float = refl
slots_in-zero FieldType.long = refl
slots_in-zero FieldType.double = refl
slots_in-zero (FieldType.object name) = refl
slots_in-zero (FieldType.array t) = refl

arguments_pass-print :
    (t : FieldType) (rest : List ℕ) (dimensions size : ℕ)
    → WellFormed t
    → dimensions + length (print t) < 2 ^ 32
    → arguments_pass (print t ++ rest) dimensions size
      ≡ arguments_pass rest 0 ((size + slots_in dimensions t) % 2 ^ 32)
unfolding arguments_pass class_name
arguments_pass-print (FieldType.object name) rest dimensions size w d =
    rw (append_assoc name (59 ∷ []) rest) (class_name-first name rest size w)
arguments_pass-print (FieldType.array t) rest dimensions size w d =
    let e : (dimensions + 1) % 2 ^ 32 ≡ suc dimensions = omega arith in
    rw e (
      rw (slots_in-suc dimensions t) at
        (arguments_pass-print t rest (suc dimensions) size w (omega arith)))
arguments_pass-print FieldType.byte rest dimensions size w d = refl
arguments_pass-print FieldType.char rest dimensions size w d = refl
arguments_pass-print FieldType.short rest dimensions size w d = refl
arguments_pass-print FieldType.boolean rest dimensions size w d = refl
arguments_pass-print FieldType.int rest dimensions size w d = refl
arguments_pass-print FieldType.float rest dimensions size w d = refl
arguments_pass-print FieldType.long rest dimensions size w d = refl
arguments_pass-print FieldType.double rest dimensions size w d = refl

pub arguments_pass-print_all :
    (ts : List FieldType) (rest : List ℕ) (size : ℕ)
    → All WellFormed ts
    → length (print_all ts) < 2 ^ 30
    → size + slots_all ts < 2 ^ 32
    → at_place rest ≢ 0
    → arguments_pass (print_all ts ++ (41 ∷ rest)) 0 size
      ≡ Pass.at_return rest (size + slots_all ts)
unfolding arguments_pass class_name
arguments_pass-print_all [] rest size w d b r =
    let e : (at_place rest == 0) ≡ false = ground arith in
    let sum : size + 0 ≡ size = omega arith in rw (arguments_pass, e, sum) refl
arguments_pass-print_all (t ∷ ts) rest size w d b r =
    let joined : length (print t ++ print_all ts) ≡ length (print t) + length (print_all ts) =
      length-append (print t) (print_all ts) in
    let e : (size + slots_in 0 t) % 2 ^ 32 ≡ size + slots t = omega (arith, slots_in-zero t) in
    rw
      (
        append_assoc (print t) (print_all ts) (41 ∷ rest),
        arguments_pass-print t (print_all ts ++ (41 ∷ rest)) 0 size w.0 (omega arith),
        e,
      )
      (arguments_pass-print_all ts rest (size + slots t) w.1 (omega arith) (omega arith) r
        ∙ ap (Pass.at_return rest) (omega arith))
