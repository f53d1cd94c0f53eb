-- ===== src/Fields/Shapes.antt =====
-- The field descriptors that are accepted, and what a field of each takes.
use jelatine.Common.{
  ℕ, suc, ◌+◌, ◌≤◌, ◌≡◌, refl, ap, Bool, true, false, ◌||◌, Option, none, some, List, [], ◌∷◌, ◌++◌,
  arith, leb, ◌==◌, All,
}
use jelatine.Descriptor.{at_place, skip_name}
use jelatine.Descriptor.Grammar.{FieldType, print, NameChar, Lax}
use jelatine.Descriptor.Arguments.{append_assoc, char_tests}
use jelatine.Fields.{
  is_basic, skip_dimensions, parse_element, parse_field, field_size, Member, static_field_data,
  member_size,
}

-- Whether the member of the union has the size of the field.
abbrev agree : Option Member → Option ℕ → Bool
agree none size = false
agree (some member) none = false
agree (some member) (some size) = member_size member == size

agree-some :
    (m : Option Member) (n : Option ℕ)
    → agree m n ≡ true
    → (member : Member) × (m ≡ some member) × (n ≡ some (member_size member))
agree-some none n h = cc
agree-some (some member) none h = cc
agree-some (some member) (some size) h = (member, refl, ap some (ground arith))

pub first_char :
    (fp : Bool) (desc : List ℕ)
    → parse_field fp desc ≡ true
    → (is_basic fp (at_place desc) || (at_place desc == 76) || (at_place desc == 91)) ≡ true
unfolding parse_field
first_char fp desc h = ground arith

sizes_agree :
    (fp : Bool) (desc : List ℕ)
    → (is_basic fp (at_place desc) || (at_place desc == 76) || (at_place desc == 91)) ≡ true
    → agree (static_field_data fp desc) (field_size fp desc) ≡ true
unfolding static_field_data field_size
sizes_agree fp desc h = ground arith

-- Whatever descriptor `field_parse_descriptor` accepts, a field of it has a size, a static field of
-- it has a member of the union, and the member has that size: no code that is marked as unreachable
-- is reached.
pub parse_field-field_size :
    (fp : Bool) (desc : List ℕ)
    → parse_field fp desc ≡ true
    → (member : Member) × (static_field_data fp desc ≡ some member)
      × (field_size fp desc ≡ some (member_size member))
parse_field-field_size fp desc h = agree-some _ _ (sizes_agree fp desc (first_char fp desc h))

-- The element type under the dimensions, and how many there are.
abbrev pub base : FieldType → FieldType
base (FieldType.array t) = base t
base t = t

abbrev pub depth : FieldType → ℕ
depth (FieldType.array t) = suc (depth t)
depth t = 0

-- What may follow: anything behind a class name, nothing behind another type.
abbrev pub Follows : FieldType → List ℕ → Type 0
Follows (FieldType.object name) rest = Unit {0}
Follows (FieldType.array t) rest = Follows t rest
Follows t rest = rest ≡ []

-- A type that the configuration has.
abbrev pub Supported : Bool → FieldType → Type 0
Supported fp FieldType.float = fp ≡ true
Supported fp FieldType.double = fp ≡ true
Supported fp (FieldType.array t) = Supported fp t
Supported fp t = Unit {0}

skip_name-rest :
    (name rest : List ℕ) → All NameChar name → skip_name (name ++ (59 ∷ rest)) ≡ 59 ∷ rest
unfolding skip_name
skip_name-rest [] rest h = refl
skip_name-rest (c ∷ name) rest (p, h) =
    let tests = char_tests c p in rw (tests.0, tests.1) (skip_name-rest name rest h)

print-starts : (t : FieldType) (rest : List ℕ) → (at_place (print t ++ rest) == 0) ≡ false
print-starts (FieldType.object name) rest = refl
print-starts (FieldType.array t) rest = refl
print-starts FieldType.byte rest = refl
print-starts FieldType.char rest = refl
print-starts FieldType.short rest = refl
print-starts FieldType.boolean rest = refl
print-starts FieldType.int rest = refl
print-starts FieldType.float rest = refl
print-starts FieldType.long rest = refl
print-starts FieldType.double rest = refl

skip_dimensions-print :
    (t : FieldType) (rest : List ℕ) (dimensions : ℕ)
    → dimensions + depth t ≤ 255
    → skip_dimensions (print t ++ rest) dimensions ≡ some (print (base t) ++ rest)
unfolding skip_dimensions
skip_dimensions-print (FieldType.array t) rest dimensions h =
    let few : leb 256 (dimensions + 1) ≡ false = ground arith in
    rw (print-starts t rest, few) (skip_dimensions-print t rest (dimensions + 1) (omega arith))
skip_dimensions-print (FieldType.object name) rest dimensions h = refl
skip_dimensions-print FieldType.byte rest dimensions h = refl
skip_dimensions-print FieldType.char rest dimensions h = refl
skip_dimensions-print FieldType.short rest dimensions h = refl
skip_dimensions-print FieldType.boolean rest dimensions h = refl
skip_dimensions-print FieldType.int rest dimensions h = refl
skip_dimensions-print FieldType.float rest dimensions h = refl
skip_dimensions-print FieldType.long rest dimensions h = refl
skip_dimensions-print FieldType.double rest dimensions h = refl

parse_element-base :
    (fp : Bool) (t : FieldType) (rest : List ℕ)
    → Lax t
    → Supported fp t
    → Follows t rest
    → parse_element fp (print (base t) ++ rest) ≡ true
unfolding parse_element skip_name
parse_element-base fp (FieldType.array t) rest w s f = parse_element-base fp t rest w s f
parse_element-base fp (FieldType.object name) rest w s f =
    rw (append_assoc name (59 ∷ []) rest, skip_name-rest name rest w) (ground arith)
parse_element-base fp FieldType.byte rest w s f = rw f refl
parse_element-base fp FieldType.char rest w s f = rw f refl
parse_element-base fp FieldType.short rest w s f = rw f (ground arith)
parse_element-base fp FieldType.boolean rest w s f = rw f (ground arith)
parse_element-base fp FieldType.int rest w s f = rw f (ground arith)
parse_element-base fp FieldType.float rest w s f = rw (f, s) refl
parse_element-base fp FieldType.long rest w s f = rw f (ground arith)
parse_element-base fp FieldType.double rest w s f = rw (f, s) refl

-- `field_parse_descriptor` accepts every type with at most 255 dimensions that the configuration
-- has. Class names may be empty, and behind a class name anything may follow.
pub parse_field-print :
    (fp : Bool) (t : FieldType) (rest : List ℕ)
    → Lax t
    → Supported fp t
    → depth t ≤ 255
    → Follows t rest
    → parse_field fp (print t ++ rest) ≡ true
unfolding parse_field
parse_field-print fp (FieldType.array t) rest w s d f =
    rw (skip_dimensions-print (FieldType.array t) rest 0 (omega arith))
      (ground (arith, parse_element-base fp t rest w s f))
parse_field-print fp (FieldType.object name) rest w s d f =
    rw (append_assoc name (59 ∷ []) rest, skip_name-rest name rest w) (ground arith)
parse_field-print fp FieldType.byte rest w s d f = rw f refl
parse_field-print fp FieldType.char rest w s d f = rw f refl
parse_field-print fp FieldType.short rest w s d f = rw f (ground arith)
parse_field-print fp FieldType.boolean rest w s d f = rw f (ground arith)
parse_field-print fp FieldType.int rest w s d f = rw f (ground arith)
parse_field-print fp FieldType.float rest w s d f = rw (f, s) refl
parse_field-print fp FieldType.long rest w s d f = rw f (ground arith)
parse_field-print fp FieldType.double rest w s d f = rw (f, s) refl
