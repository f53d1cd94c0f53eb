-- ===== src/JString/Hash.antt =====
-- `jstring_hash` and `jstring_equals` of src/jelatine/jstring.c, by which interned strings are found:
-- the bucket of a string is taken from its hash, and within it strings are compared. A string is a
-- range of an array of characters; the index of an element is in the array wherever the code reads.
use jelatine.Common.{
  ℕ, zero, suc, ◌+◌, ◌-◌, ◌*◌, ◌%◌, ◌^◌, ◌≤◌, ◌<◌, ◌≡◌, refl, Bool, true, false, ◌&&◌, List, arith,
  ◌==◌, if◌then◌else◌, get_or, length,
}

-- `struct java_lang_String_t`, with its address and the elements of its array. Its header and its link
-- in a bucket, which hashing and comparison do not read, are left out.
pub record JavaString : Type 0 where
  pub ref : ℕ
  pub value : List ℕ
  pub count : ℕ
  pub cached_hash_code : ℕ
  pub offset : ℕ

-- The `for` loop, with the number of rounds that are left.
string_hash_loop : ℕ → List ℕ → ℕ → ℕ → ℕ
string_hash_loop zero chars i hash = hash
string_hash_loop (suc rounds) chars i hash =
    string_hash_loop rounds chars (i + 1) ((hash * 31 + get_or chars i 0) % 2 ^ 32)

unfoldable pub jstring_hash : List ℕ → ℕ → ℕ → ℕ
unfolding string_hash_loop
jstring_hash chars offset count =
    let limit = (count + offset) % 2 ^ 32 in string_hash_loop (limit - offset) chars offset 0

-- Whether `memcmp` finds no difference in the elements from `i` and from `j` on.
same_elements : ℕ → List ℕ → ℕ → List ℕ → ℕ → Bool
same_elements zero data1 i data2 j = true
same_elements (suc rounds) data1 i data2 j =
    (get_or data1 i 0 == get_or data2 j 0) && same_elements rounds data1 (i + 1) data2 (j + 1)

unfoldable pub jstring_equals : JavaString → JavaString → Bool
unfolding same_elements
jstring_equals str1 str2 =
    if str1.ref == str2.ref
    then true
    else if str1.count == str2.count
    then same_elements str1.count str1.value str1.offset str2.value str2.offset
    else false

-- The range of a string lies in its array.
abbrev pub InArray : JavaString → Type 0
InArray str = (str.offset + str.count ≤ length str.value) × (length str.value < 2 ^ 32)

same-hash_loop :
    (rounds : ℕ) (data1 : List ℕ) (i : ℕ) (data2 : List ℕ) (j hash : ℕ)
    → same_elements rounds data1 i data2 j ≡ true
    → string_hash_loop rounds data1 i hash ≡ string_hash_loop rounds data2 j hash
unfolding same_elements string_hash_loop
same-hash_loop zero data1 i data2 j hash h = refl
same-hash_loop (suc rounds) data1 i data2 j hash h =
    let e : get_or data1 i 0 ≡ get_or data2 j 0 = ground arith in
    rw e (
      same-hash_loop rounds data1 (i + 1) data2 (j + 1) ((hash * 31 + get_or data2 j 0) % 2 ^ 32)
        (ground arith))

hash-rounds :
    (str : JavaString) → InArray str → (str.count + str.offset) % 2 ^ 32 - str.offset ≡ str.count
hash-rounds str h = omega arith

-- Strings in their arrays that `jstring_equals` finds equal, at different addresses, have the same
-- hash, also where they start at different elements; so they belong in the same bucket.
pub jstring_hash-jstring_equals :
    (str1 str2 : JavaString)
    → InArray str1
    → InArray str2
    → (str1.ref == str2.ref) ≡ false
    → jstring_equals str1 str2 ≡ true
    → jstring_hash str1.value str1.offset str1.count
      ≡ jstring_hash str2.value str2.offset str2.count
unfolding jstring_hash jstring_equals
jstring_hash-jstring_equals str1 str2 in1 in2 ne h =
    let opened : (if str1.count == str2.count
          then same_elements str1.count str1.value str1.offset str2.value str2.offset
          else false)
        ≡ true =
      rw ne at h in
    let counts : str1.count ≡ str2.count = ground arith in
    rw (hash-rounds str1 in1, hash-rounds str2 in2, ← counts)
      (same-hash_loop str1.count str1.value str1.offset str2.value str2.offset 0 (ground arith))
