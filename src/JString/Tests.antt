-- ===== src/JString/Tests.antt =====
-- The purge at concrete buckets.
use jelatine.Common.{
  ℕ, ◌+◌, ◌≡◌, refl, Bool, true, some, [], ◌∷◌, arith, ◌==◌, if◌then◌else◌, length,
}
use jelatine.Common.Links.{Links, Chain, select}
use jelatine.JString.Hash.{JavaString, jstring_equals}
use jelatine.JString.Purge.{purge_bucket, survivors, purge_bucket-survivors}

-- the bucket 8, 16, 24
abbrev next : ℕ → ℕ
next a = if a == 8 then 16 else if a == 16 then 24 else 0

abbrev all_marked : ℕ → Bool
all_marked a = true

-- Every string of the bucket is marked: three are counted, and the bucket is empty afterwards.
all_lost : purge_bucket 4 all_marked 8 next 0 ≡ some (record { head = 0; next = next }, 3)
unfolding purge_bucket
all_lost = refl

purge_bucket-survivors_example :
    (links : Links) × (purge_bucket 4 (λ a. a == 16) 8 next 5
      ≡ some (links, 5 + length (select (λ a. a == 16) (8 ∷ 16 ∷ 24 ∷ []))))
    × Chain links.next links.head (survivors (λ a. a == 16) (8 ∷ 16 ∷ 24 ∷ []))
purge_bucket-survivors_example =
    purge_bucket-survivors (λ a. a == 16) (8 ∷ 16 ∷ 24 ∷ []) 4 8 5 next (omega arith) (omega arith)
      (omega arith)

-- "ab" at the start of one array and behind another character in the other.
abbrev ab : JavaString
ab = record { ref = 64; value = 97 ∷ 98 ∷ []; count = 2; cached_hash_code = 0; offset = 0 }

abbrev ab_inside : JavaString
ab_inside = record {
  ref = 128;
  value = 120 ∷ 97 ∷ 98 ∷ [];
  count = 2;
  cached_hash_code = 0;
  offset = 1;
}

abs_equal : jstring_equals ab ab_inside ≡ true
unfolding jstring_equals
abs_equal = refl
