-- ===== src/Methods/Flags.antt =====
-- The access flags that a method may have.
use jelatine.Common.{ℕ, ◌+◌, ◌≤◌, ◌≡◌, ◌↔◌, ◌⊎◌, false, none, List, [], ◌∷◌, arith, if◌then◌else◌}
use jelatine.Methods.{
  Method, has_flag, acc_public, acc_private, acc_protected, acc_static, acc_final, acc_synchronized,
  acc_native, acc_abstract, acc_strict, is_init, check_access_flags,
}

-- How many of the flags are set.
abbrev pub flag_count : ℕ → List ℕ → ℕ
flag_count access_flags [] = 0
flag_count access_flags (flag ∷ flags) =
    (if has_flag access_flags flag then 1 else 0) + flag_count access_flags flags

-- At most one kind of access; what an abstract method and what a constructor cannot be.
abbrev pub Permitted : Method → Type 0
Permitted m =
    (flag_count m.access_flags (acc_public ∷ acc_private ∷ acc_protected ∷ []) ≤ 1)
    × ((has_flag m.access_flags acc_abstract ≡ false)
        ⊎ (flag_count m.access_flags (
              acc_final ∷ acc_synchronized ∷ acc_private ∷ acc_static ∷ acc_strict ∷ acc_native
              ∷ [])
            ≡ 0))
    × ((is_init m ≡ false)
        ⊎ (flag_count m.access_flags
              (acc_static ∷ acc_final ∷ acc_synchronized ∷ acc_native ∷ acc_abstract ∷ [])
            ≡ 0))

-- `method_check_access_flags` accepts a method exactly when it has at most one of the flags for
-- public, private and protected, is not abstract together with a flag that excludes it, and, as a
-- constructor, is neither static, final, synchronized, native nor abstract.
pub check_access_flags-Permitted : (m : Method) → (check_access_flags m ≡ none) ↔ Permitted m
unfolding check_access_flags
check_access_flags-Permitted m = ground arith
