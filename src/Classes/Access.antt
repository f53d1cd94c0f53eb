-- ===== src/Classes/Access.antt =====
-- Who may use a field: `same_package` and `verify_field_access` of src/jelatine/verifier.c, over the
-- hierarchy. The names are lists of bytes without the terminating 0, and `none` is no more fuel in the
-- loop of `class_is_parent`.
pub mod Packages
pub mod Accessible
mod Tests
use jelatine.Common.{
  ℕ, zero, suc, ◌+◌, Bool, true, false, not, ◌&&◌, ◌||◌, Option, none, some, List, [], ◌∷◌, ◌==◌,
  if◌then◌else◌,
}
use jelatine.Methods.{has_flag, acc_public, acc_private, acc_protected}
use jelatine.Descriptor.{at_place, behind}
use jelatine.Classes.Hierarchy.{Store, class_is_parent}

-- The loop that looks for the last '/', from the place `i` on.
unfoldable pub last_slash : List ℕ → ℕ → ℕ → ℕ
last_slash [] i sl = sl
last_slash (c ∷ str) i sl = last_slash str (i + 1) (if c == 47 then i else sl)

-- `memcmp(str1, str2, n) == 0`
unfoldable pub same_bytes : ℕ → List ℕ → List ℕ → Bool
same_bytes zero str1 str2 = true
same_bytes (suc n) str1 str2 =
    (at_place str1 == at_place str2) && same_bytes n (behind str1) (behind str2)

unfoldable pub same_package : List ℕ → List ℕ → Bool
same_package str1 str2 =
    let sl1 = last_slash str1 0 0 in
    let sl2 = last_slash str2 0 0 in
    if not (sl1 == sl2)
    then false
    else if (sl1 == 0) && (sl2 == 0)
    then true
    else same_bytes (sl1 + 1) str1 str2

-- `a || b`, where `a` is the result of a loop.
abbrev pub or_else : Option Bool → Bool → Option Bool
or_else none b = none
or_else (some a) b = some (a || b)

-- Whether the function returns, or else throws, for the class `acl` and a field of the class `cl` with
-- the flags.
unfoldable pub verify_field_access : ℕ → Store → ℕ → ℕ → ℕ → Option Bool
verify_field_access fuel s acl cl flags =
    let packages = same_package (s cl).name (s acl).name in
    if has_flag flags acc_private
    then some (acl == cl)
    else if has_flag flags acc_protected
    then (if acl == cl then some true else or_else (class_is_parent fuel s cl acl) packages)
    else if not (has_flag flags acc_public)
    then some packages
    else some true
