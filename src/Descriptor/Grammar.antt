-- ===== src/Descriptor/Grammar.antt =====
-- The grammar of method descriptors (the JVM specification's), as the data that they stand for.
use jelatine.Common.{ℕ, ◌+◌, ◌≢◌, List, [], ◌∷◌, ◌++◌, All}

pub data FieldType : Type 0 where
  byte : FieldType
  char : FieldType
  short : FieldType
  boolean : FieldType
  int : FieldType
  float : FieldType
  long : FieldType
  double : FieldType
  object : List ℕ → FieldType
  array : FieldType → FieldType

pub data ReturnType : Type 0 where
  void : ReturnType
  value : FieldType → ReturnType

abbrev pub print : FieldType → List ℕ
print FieldType.byte = 66 ∷ []
print FieldType.char = 67 ∷ []
print FieldType.short = 83 ∷ []
print FieldType.boolean = 90 ∷ []
print FieldType.int = 73 ∷ []
print FieldType.float = 70 ∷ []
print FieldType.long = 74 ∷ []
print FieldType.double = 68 ∷ []
print (FieldType.object name) = 76 ∷ (name ++ (59 ∷ []))
print (FieldType.array t) = 91 ∷ print t

abbrev pub print_all : List FieldType → List ℕ
print_all [] = []
print_all (t ∷ ts) = print t ++ print_all ts

abbrev pub print_return : ReturnType → List ℕ
print_return ReturnType.void = 86 ∷ []
print_return (ReturnType.value t) = print t

-- The descriptor of a method.
abbrev pub descriptor : List FieldType → ReturnType → List ℕ
descriptor ts ret = 40 ∷ (print_all ts ++ (41 ∷ print_return ret))

-- The stack slots of an argument.
abbrev pub slots : FieldType → ℕ
slots FieldType.long = 2
slots FieldType.double = 2
slots t = 1

abbrev pub slots_all : List FieldType → ℕ
slots_all [] = 0
slots_all (t ∷ ts) = slots t + slots_all ts

-- The characters that a class name may have.
abbrev pub NameChar : ℕ → Type 0
NameChar c = (c ≢ 0) × (c ≢ 59)

abbrev pub IsName : List ℕ → Type 0
IsName name = (name ≢ []) × All NameChar name

-- Class names are not empty.
abbrev pub WellFormed : FieldType → Type 0
WellFormed (FieldType.object name) = IsName name
WellFormed (FieldType.array t) = WellFormed t
WellFormed t = Unit {0}

-- Class names may be empty.
abbrev pub Lax : FieldType → Type 0
Lax (FieldType.object name) = All NameChar name
Lax (FieldType.array t) = Lax t
Lax t = Unit {0}

-- A return type of which an array may have a class without a name.
abbrev pub LaxReturn : ReturnType → Type 0
LaxReturn ReturnType.void = Unit {0}
LaxReturn (ReturnType.value (FieldType.array t)) = Lax t
LaxReturn (ReturnType.value t) = WellFormed t
