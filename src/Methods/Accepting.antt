-- ===== src/Methods/Accepting.antt =====
-- The methods that `mm_add` takes.
use jelatine.Common.{
  ℕ, ◌+◌, ◌^◌, ◌<◌, ◌≡◌, refl, inl, inr, ◌∙◌, Bool, false, not, ◌||◌, none, List, [], ◌∷◌, ◌++◌,
  arith, leb, if◌then◌else◌, length, All, Bool-cases,
}
use jelatine.Descriptor.{Parsed, arguments_max, parse}
use jelatine.Descriptor.Grammar.{
  FieldType, ReturnType, descriptor, slots_all, WellFormed, LaxReturn,
}
use jelatine.Descriptor.Accepts.{stored, parse-descriptor}
use jelatine.Methods.{
  Method, MethodAttributes, Code, Coded, Added, has_flag, acc_native, acc_abstract, acc_static,
  check_access_flags, get, set_code, new_method, complete, add_method,
}

-- A method has code in the class file unless it is native or abstract.
abbrev pub needs_code : ℕ → Bool
needs_code access_flags =
    not (has_flag access_flags acc_native || has_flag access_flags acc_abstract)

-- What stands for its code at first.
abbrev pub first_code : ℕ → Code
first_code access_flags =
    if has_flag access_flags acc_native
    then Code.no_code
    else if has_flag access_flags acc_abstract
    then Code.abstract_method_code
    else Code.load_method_code

-- The slots that a call passes.
abbrev pub passed : ℕ → List FieldType → ℕ
passed access_flags ts = if has_flag access_flags acc_static then slots_all ts else slots_all ts + 1

set_code-coded :
    (attr : MethodAttributes) (m : Method)
    → attr.code_found ≡ needs_code m.access_flags
    → (m' : Method) × (set_code attr m ≡ Coded.coded m')
      × (m'.descriptor ≡ m.descriptor)
      × (m'.access_flags ≡ m.access_flags)
      × (m'.code ≡ first_code m.access_flags)
unfolding set_code
set_code-coded attr m e = elim (Bool-cases (has_flag m.access_flags acc_native)) [
  | inl t ↦ rw (set_code, e, t) (_, refl, refl, refl, refl)
  | inr f ↦ elim (Bool-cases (has_flag m.access_flags acc_abstract)) [
    | inl t ↦ rw (set_code, e, f, t) (_, refl, refl, refl, refl)
    | inr g ↦ rw (set_code, e, f, g) (_, refl, refl, refl, refl)
  ]
]

stored-size :
    (access_flags : ℕ) (ts : List FieldType)
    → passed access_flags ts < arguments_max
    → stored (has_flag access_flags acc_static) (slots_all ts)
      ≡ Parsed.size (passed access_flags ts)
stored-size access_flags ts h =
    let few : leb arguments_max (passed access_flags ts) ≡ false = ground arith in rw few refl

complete-size :
    (methods : List Method) (m : Method) (n : ℕ)
    → parse (has_flag m.access_flags acc_static) m.descriptor ≡ Parsed.size n
    → complete methods m ≡ Added.added (methods ++ (record m { args_size = n } ∷ []))
unfolding complete
complete-size methods m n e = rw (complete, e) refl

-- A method whose name and descriptor are not in the manager yet, whose access flags are accepted,
-- which has code exactly when it is neither native nor abstract, whose descriptor is one of the
-- grammar with at most 65535 characters, and whose arguments take less than 16 slots, is added, with
-- the number of the slots and with the code that its flags ask for.
pub add_method-accepts :
    (name : List ℕ) (ts : List FieldType) (ret : ReturnType) (access_flags cp : ℕ)
    (attr : MethodAttributes) (methods : List Method)
    → get name (descriptor ts ret) methods ≡ none
    → check_access_flags (new_method name (descriptor ts ret) access_flags cp) ≡ none
    → attr.code_found ≡ needs_code access_flags
    → All WellFormed ts
    → LaxReturn ret
    → length (descriptor ts ret) < 2 ^ 16
    → passed access_flags ts < arguments_max
    → (m : Method) × (add_method name (descriptor ts ret) access_flags cp attr methods
        ≡ Added.added (methods ++ (m ∷ [])))
      × (m.args_size ≡ passed access_flags ts)
      × (m.code ≡ first_code access_flags)
unfolding add_method new_method
add_method-accepts name ts ret access_flags cp attr methods absent flags code w l short few =
    let (m, c, ed, ef, ec) =
      set_code-coded attr (new_method name (descriptor ts ret) access_flags cp) code in
    let size =
      parse-descriptor (has_flag access_flags acc_static) ts ret w l short
      ∙ stored-size access_flags ts few in
    (
      record m { args_size = passed access_flags ts },
      rw (add_method, absent, flags, c)
          (complete-size methods m (passed access_flags ts) (rw (ed, ef) size)),
      refl,
      ec,
    )
