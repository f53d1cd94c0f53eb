-- ===== src/Methods/Adding.antt =====
-- What `mm_add` leaves in the method manager.
use jelatine.Common.{
  ℕ, ◌+◌, ◌≡◌, ◌⊎◌, inl, inr, refl, sym, ◌∙◌, true, false, none, some, List, [], ◌∷◌, ◌++◌, arith,
  length, All, Option-cases, Bool-cases,
}
use jelatine.Strings.Count.{same_chars_iff}
use jelatine.Descriptor.{Parsed, parse}
use jelatine.Methods.{
  Method, MethodAttributes, Refusal, Coded, Added, has_flag, acc_native, acc_abstract, acc_static,
  check_access_flags, matches, get, set_code, new_method, complete, add_method,
}

-- No method has the name and the descriptor of an earlier one.
abbrev pub IsUnique : List Method → Type 0
IsUnique [] = Unit {0}
IsUnique (m ∷ methods) = All (λ x. matches x.name x.descriptor m ≡ false) methods × IsUnique methods

module _ (name descriptor : List ℕ) (x : Method) (methods : List Method) where
  get-here : matches name descriptor x ≡ true → get name descriptor (x ∷ methods) ≡ some 0
  unfolding get
  get-here t = rw t refl

  get-next :
      (i : ℕ)
      → matches name descriptor x ≡ false
      → get name descriptor methods ≡ some i
      → get name descriptor (x ∷ methods) ≡ some (i + 1)
  unfolding get
  get-next i f e = rw (f, e) refl

  get-end :
      matches name descriptor x ≡ false
      → get name descriptor methods ≡ none
      → get name descriptor (x ∷ methods) ≡ none
  unfolding get
  get-end f e = rw (f, e) refl

get-append_old :
    (name descriptor : List ℕ) (methods : List Method) (m : Method) (i : ℕ)
    → get name descriptor methods ≡ some i
    → get name descriptor (methods ++ (m ∷ [])) ≡ some i
get-append_old name descriptor [] m i e = unfold get in cc
get-append_old name descriptor (x ∷ methods) m i e = elim (Bool-cases (matches name descriptor x)) [
  | inl t ↦
      get-here name descriptor x (methods ++ (m ∷ [])) t
      ∙ sym (get-here name descriptor x methods t)
      ∙ e
  | inr f ↦ elim (Option-cases (get name descriptor methods)) [
    | inl g ↦ let absent = get-end name descriptor x methods f g in cc
    | inr (j, g) ↦
        get-next name descriptor x (methods ++ (m ∷ [])) j f
          (get-append_old name descriptor methods m j g)
        ∙ sym (get-next name descriptor x methods j f g)
        ∙ e
  ]
]

get-append_new :
    (name descriptor : List ℕ) (methods : List Method) (m : Method)
    → get name descriptor methods ≡ none
    → matches name descriptor m ≡ true
    → get name descriptor (methods ++ (m ∷ [])) ≡ some (length methods)
unfolding get
get-append_new name descriptor [] m e t = rw t refl
get-append_new name descriptor (x ∷ methods) m e t =
    ground (arith, get-append_new name descriptor methods m)

get-none :
    (name descriptor : List ℕ) (methods : List Method)
    → get name descriptor methods ≡ none
    → All (λ x. matches name descriptor x ≡ false) methods
unfolding get
get-none name descriptor [] e = tt
get-none name descriptor (x ∷ methods) e =
    (ground arith, get-none name descriptor methods (ground arith))

All-snoc :
    (P : Method → Type 0) (methods : List Method) (m : Method)
    → All P methods
    → P m
    → All P (methods ++ (m ∷ []))
All-snoc P [] m h p = (p, tt)
All-snoc P (x ∷ methods) m h p = (h.0, All-snoc P methods m h.1 p)

IsUnique-snoc :
    (methods : List Method) (m : Method)
    → IsUnique methods
    → All (λ x. matches m.name m.descriptor x ≡ false) methods
    → IsUnique (methods ++ (m ∷ []))
IsUnique-snoc [] m u h = (tt, tt)
IsUnique-snoc (x ∷ methods) m u h = (
  All-snoc (λ y. matches y.name y.descriptor x ≡ false) methods m u.0 h.0,
  IsUnique-snoc methods m u.1 h.1,
)

-- The code of a method is set without a change of what it is found by.
abbrev pub Keeps : Method → Coded → Type 0
Keeps m (Coded.uncoded r) = Unit {0}
Keeps m (Coded.coded m') =
    (m'.name ≡ m.name) × (m'.descriptor ≡ m.descriptor) × (m'.access_flags ≡ m.access_flags)

pub set_code-Keeps : (attr : MethodAttributes) (m : Method) → Keeps m (set_code attr m)
unfolding set_code
set_code-Keeps attr m = elim (Bool-cases (has_flag m.access_flags acc_native)) [
  | inl t ↦ elim (Bool-cases attr.code_found) [
    | inl c ↦ rw (t, c) tt
    | inr c ↦ rw (t, c) (refl, refl, refl)
  ]
  | inr f ↦ elim (Bool-cases (has_flag m.access_flags acc_abstract)) [
    | inl t ↦ elim (Bool-cases attr.code_found) [
      | inl c ↦ rw (f, t, c) tt
      | inr c ↦ rw (f, t, c) (refl, refl, refl)
    ]
    | inr g ↦ elim (Bool-cases attr.code_found) [
      | inl c ↦ rw (f, g, c) (refl, refl, refl)
      | inr c ↦ rw (f, g, c) tt
    ]
  ]
]

-- One method with the name and the descriptor stands behind the others, which had none.
abbrev Appends : List ℕ → List ℕ → List Method → Added → Type 0
Appends name descriptor methods (Added.refused r) = Unit {0}
Appends name descriptor methods (Added.added methods') =
    (m : Method) × (methods' ≡ methods ++ (m ∷ []))
    × (m.name ≡ name)
    × (m.descriptor ≡ descriptor)
    × (get name descriptor methods ≡ none)

complete-Appends :
    (name descriptor : List ℕ) (methods : List Method) (m : Method) (p : Parsed)
    → parse (has_flag m.access_flags acc_static) m.descriptor ≡ p
    → m.name ≡ name
    → m.descriptor ≡ descriptor
    → get name descriptor methods ≡ none
    → Appends name descriptor methods (complete methods m)
unfolding complete
complete-Appends name descriptor methods m (Parsed.size n) e en ed g =
    rw (complete, e) (record m { args_size = n }, refl, en, ed, g)
complete-Appends name descriptor methods m Parsed.too_many e en ed g = rw (complete, e) tt
complete-Appends name descriptor methods m Parsed.malformed e en ed g = rw (complete, e) tt

Coded-cases :
    (c : Coded) → ((m : Method) × (c ≡ Coded.coded m)) ⊎ ((r : Refusal) × (c ≡ Coded.uncoded r))
Coded-cases (Coded.coded m) = inl (m, refl)
Coded-cases (Coded.uncoded r) = inr (r, refl)

module _ (name descriptor : List ℕ) (access_flags cp : ℕ) (attr : MethodAttributes)
    (methods : List Method) where
  add_method-Appends :
      Appends name descriptor methods (add_method name descriptor access_flags cp attr methods)
  unfolding add_method new_method
  add_method-Appends = elim (Option-cases (get name descriptor methods)) [
    | inr (i, e) ↦ rw (add_method, e) tt
    | inl e ↦
        elim (Option-cases (check_access_flags (new_method name descriptor access_flags cp))) [
          | inr (r, f) ↦ rw (add_method, e, f) tt
          | inl f ↦
              elim (Coded-cases (set_code attr (new_method name descriptor access_flags cp))) [
                | inr (r, c) ↦ rw (add_method, e, f, c) tt
                | inl (m, c) ↦
                    let keeps =
                      rw c at (set_code-Keeps attr (new_method name descriptor access_flags cp)) in
                    rw (add_method, e, f, c)
                      (complete-Appends name descriptor methods m _ refl keeps.0 keeps.1 e)
              ]
        ]
  ]

  -- When `mm_add` adds a method to a manager without duplicates, there are none afterwards, the
  -- new method is found behind the others, and every method that was found is found where it was.
  pub add_method-get :
      (methods' : List Method)
      → IsUnique methods
      → add_method name descriptor access_flags cp attr methods ≡ Added.added methods'
      → IsUnique methods'
        × (get name descriptor methods' ≡ some (length methods))
        × ((n d : List ℕ) (i : ℕ) → get n d methods ≡ some i → get n d methods' ≡ some i)
  unfolding matches
  add_method-get methods' u e =
      let (m, em, en, ed, g) = rw e at add_method-Appends in
      rw em (
        IsUnique-snoc methods m u (rw (en, ed) (get-none name descriptor methods g)),
        get-append_new name descriptor methods m g (
            rw
              (
                en,
                ed,
                (same_chars_iff name name).1 refl,
                (same_chars_iff descriptor descriptor).1 refl,
              )
              refl),
        λ n d i h. get-append_old n d methods m i h,
      )
