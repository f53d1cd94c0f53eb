-- ===== src/Strings/Tests.antt =====
-- The string manager at concrete tables.
use jelatine.Common.{ℕ, ◌≡◌, ◌⊎◌, refl, true, some, List, [], ◌∷◌, arith, if◌then◌else◌}
use jelatine.Strings.{StringManager, manager_init, same_chars, find, rehash, intern}
use jelatine.Utf8.{hash}
use jelatine.Strings.Table.{IsValid, lookup}
use jelatine.Strings.Intern.{manager_init-IsValid, address, intern-lookup}

-- A table of two buckets that holds one string for each.
abbrev small : StringManager
small = manager_init 1 1

abbrev one : StringManager
one = (intern true (97 ∷ []) 800 small).1

-- The string "ab" in an empty table.
intern-lookup_example :
    ((intern true (97 ∷ 98 ∷ []) 800 small).0 ≡ address (lookup true small (97 ∷ 98 ∷ [])) 800)
    × (IsValid true 1 (intern true (97 ∷ 98 ∷ []) 800 small).1
        ⊎ IsValid true 2 (intern true (97 ∷ 98 ∷ []) 800 small).1)
    × ((s : List ℕ)
        → lookup true (intern true (97 ∷ 98 ∷ []) 800 small).1 s ≡ (
            if same_chars (97 ∷ 98 ∷ []) s
            then some (intern true (97 ∷ 98 ∷ []) 800 small).0
            else lookup true small s))
intern-lookup_example =
    intern-lookup true 1 small (97 ∷ 98 ∷ []) 800 (manager_init-IsValid true 1 1).0 (omega arith)

-- The third string of a table with room for two doubles it.
grows : (intern true (99 ∷ []) 816 (intern true (98 ∷ []) 808 one).1).1.capacity ≡ 4
unfolding intern manager_init find hash rehash
grows = refl
