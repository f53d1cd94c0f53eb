-- ===== src/Methods/Tests.antt =====
-- The method manager at concrete methods.
use jelatine.Common.{ℕ, ◌≡◌, refl, true, false, none, some, List, [], ◌∷◌, ◌++◌, arith}
use jelatine.Descriptor.{parse, arguments_pass, class_name, return_type_pass, finish}
use jelatine.Descriptor.Grammar.{FieldType, ReturnType, descriptor}
use jelatine.Methods.{
  Method, MethodAttributes, Code, Refusal, Added, is_init, check_access_flags, matches, get,
  set_code, new_method, complete, add_method,
}
use jelatine.Methods.Adding.{IsUnique, add_method-get}
use jelatine.Methods.Accepting.{passed, first_code, add_method-accepts}

abbrev with_code : MethodAttributes
with_code = record {
  code_found = true;
  code_offset = 400;
  code_length = 5;
  max_stack = 2;
  max_locals = 3;
  exceptions_found = false;
  exception_table_length = 0;
}

-- `f(I)V`, public and static
abbrev f : Method
f = record (new_method (102 ∷ []) (40 ∷ 73 ∷ 41 ∷ 86 ∷ []) 9 7) {
  args_size = 1;
  max_stack = 2;
  max_locals = 3;
  code_length = 5;
  code = Code.load_method_code;
  data_offset = 400;
}

-- `g(I)V`
abbrev g : Method
g = record f { name = 103 ∷ [] }

added_g :
    add_method (103 ∷ []) (40 ∷ 73 ∷ 41 ∷ 86 ∷ []) 9 7 with_code (f ∷ []) ≡ Added.added (f ∷ g ∷ [])
unfolding add_method get matches new_method check_access_flags is_init set_code complete parse
    arguments_pass class_name return_type_pass finish
added_g = refl

-- A method that is public and private is refused.
both :
    add_method (103 ∷ []) (40 ∷ 41 ∷ 86 ∷ []) 3 7 with_code [] ≡ Added.refused Refusal.wrong_flags
unfolding add_method get check_access_flags new_method is_init
both = refl

add_method-get_example :
    IsUnique (f ∷ g ∷ [])
    × (get (103 ∷ []) (40 ∷ 73 ∷ 41 ∷ 86 ∷ []) (f ∷ g ∷ []) ≡ some 1)
    × ((n d : List ℕ) (i : ℕ) → get n d (f ∷ []) ≡ some i → get n d (f ∷ g ∷ []) ≡ some i)
add_method-get_example =
    add_method-get (103 ∷ []) (40 ∷ 73 ∷ 41 ∷ 86 ∷ []) 9 7 with_code (f ∷ []) (f ∷ g ∷ []) (tt, tt)
      added_g

absent_g : get (103 ∷ []) (descriptor (FieldType.int ∷ []) ReturnType.void) (f ∷ []) ≡ none
unfolding get matches new_method
absent_g = refl

public_static :
    check_access_flags (new_method (103 ∷ []) (descriptor (FieldType.int ∷ []) ReturnType.void) 9 7)
    ≡ none
unfolding check_access_flags new_method is_init
public_static = refl

add_method-accepts_example :
    (m : Method) × (add_method
        (103 ∷ [])
        (descriptor (FieldType.int ∷ []) ReturnType.void)
        9
        7
        with_code
        (f ∷ [])
      ≡ Added.added ((f ∷ []) ++ (m ∷ [])))
    × (m.args_size ≡ passed 9 (FieldType.int ∷ []))
    × (m.code ≡ first_code 9)
add_method-accepts_example =
    add_method-accepts (103 ∷ []) (FieldType.int ∷ []) ReturnType.void 9 7 with_code (f ∷ [])
      absent_g public_static refl (tt, tt) tt (omega arith) (omega arith)

-- `f` at the index 6 of the dispatch table.
abbrev f6 : Method
f6 = record f { index = 6 }
