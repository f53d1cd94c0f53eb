-- ===== src/Utf8/Safety.antt =====
-- Memory safety of the readers: on a terminated string `utf8_check` answers, and what it accepts
-- is measured and converted without an access outside the string or outside the buffer.
use jelatine.Common.{
  ℕ, zero, suc, ◌+◌, ◌%◌, ◌^◌, ◌≤◌, ◌<◌, ◌≡◌, refl, ◌⊎◌, Bool, true, false, List, [], ◌∷◌, arith,
  length, length-set, set, drop, All, ◌==◌,
}
use jelatine.Common.Outcome.{Outcome, ok, fault, stuck, is_ok, ok_of_is_ok, store}
use jelatine.Utf8.{
  check_case, check_loop, check, to_java_length_loop, to_java_length, to_java_case, to_java_loop,
  to_java, promote, pair_char, triple_char,
}
use jelatine.Utf8.Masks.{and_80, and_20}

abbrev pub IsByte : ℕ → Type 0
IsByte b = b < 256

-- A terminator is among the bytes.
abbrev pub Terminated : List ℕ → Type 0
Terminated [] = ⊥
Terminated (b ∷ src) = (b ≡ 0) ⊎ Terminated src

check_loop_answers :
    (fuel : ℕ) (src : List ℕ)
    → Terminated src
    → length src < fuel
    → is_ok (check_loop fuel src) ≡ true
unfolding check_loop check_case
check_loop_answers zero src t h = absurd (omega arith)
check_loop_answers (suc fuel) [] t h = absurd t
check_loop_answers (suc fuel) (a ∷ []) t h = ground (arith)
check_loop_answers (suc fuel) (a ∷ b ∷ []) t h =
    ground (arith, check_loop_answers fuel (b ∷ []), check_loop_answers fuel [])
check_loop_answers (suc fuel) (a ∷ b ∷ c ∷ src) t h = ground (
  arith,
  check_loop_answers fuel (b ∷ c ∷ src),
  check_loop_answers fuel (c ∷ src),
  check_loop_answers fuel src,
)

-- `utf8_check` answers on every terminated string: it does not run out of fuel, and reads nothing
-- past the end of
-- the memory given, also where that ends with the terminator.
pub check_answers : (src : List ℕ) → Terminated src → (b : Bool) × (check src ≡ ok b)
unfolding check
check_answers src t = ok_of_is_ok _ (check_loop_answers (length src + 1) src t (omega arith))

to_java_length_loop-le :
    (fuel : ℕ) (src : List ℕ) (len n : ℕ) → to_java_length_loop fuel src len ≡ ok n → len ≤ n
unfolding to_java_length_loop
to_java_length_loop-le zero src len n e = cc
to_java_length_loop-le (suc fuel) [] len n e = cc
to_java_length_loop-le (suc fuel) (a ∷ src) len n e = ground (
  arith,
  to_java_length_loop-le fuel src (len + 1) n,
  to_java_length_loop-le fuel (drop 1 src) (len + 1) n,
  to_java_length_loop-le fuel (drop 2 src) (len + 1) n,
)

-- The two switches agree on how many bytes a character takes.
valid_length :
    (fuel : ℕ) (src : List ℕ) (len : ℕ)
    → All IsByte src
    → check_loop fuel src ≡ ok true
    → is_ok (to_java_length_loop fuel src len) ≡ true
unfolding check_loop check_case to_java_length_loop
valid_length zero src len h e = cc
valid_length (suc fuel) [] len h e = cc
valid_length (suc fuel) (a ∷ src) len h e = ground (
  arith,
  and_80 a,
  and_20 a,
  valid_length fuel src (len + 1),
  valid_length fuel (drop 1 src) (len + 1),
  valid_length fuel (drop 2 src) (len + 1),
)

store-ok :
    (dst : List ℕ) (j v : ℕ)
    → j < length dst
    → (store dst j v ≡ ok (set dst j v)) × (length (set dst j v) ≡ length dst)
unfolding store
store-ok dst j v h = (ground arith, length-set dst j v)

-- The result is the buffer, written to.
abbrev fills : Outcome (List ℕ) → ℕ → Bool
fills (ok out) n = length out == n
fills fault n = false
fills stuck n = false

fills→ok :
    (r : Outcome (List ℕ)) (n : ℕ)
    → fills r n ≡ true
    → (out : List ℕ) × (r ≡ ok out) × (length out ≡ n)
fills→ok (ok out) n h = (out, refl, ground arith)
fills→ok fault n h = cc
fills→ok stuck n h = cc

-- On a checked string, the buffer needs room for the characters that are counted.
convert_fits :
    (signed : Bool) (fuel : ℕ) (src : List ℕ) (len n j : ℕ) (dst : List ℕ)
    → check_loop fuel src ≡ ok true
    → All IsByte src
    → to_java_length_loop fuel src len ≡ ok n
    → j + n ≤ len + length dst
    → fills (to_java_loop signed fuel dst j src) (length dst) ≡ true
unfolding check_loop check_case to_java_length_loop to_java_loop to_java_case
convert_fits signed zero src len n j dst c h e room = cc
convert_fits signed (suc fuel) [] len n j dst c h e room = cc
convert_fits signed (suc fuel) (a ∷ []) len n j dst c h e room = ground (
  arith,
  and_80 a,
  and_20 a,
  to_java_length_loop-le fuel [] (len + 1) n,
  store-ok dst j (promote signed a % 2 ^ 16),
  convert_fits signed fuel [] (len + 1) n (j + 1) (set dst j (promote signed a % 2 ^ 16)),
)
convert_fits signed (suc fuel) (a ∷ b ∷ []) len n j dst c h e room = ground (
  arith,
  and_80 a,
  and_20 a,
  to_java_length_loop-le fuel [] (len + 1) n,
  to_java_length_loop-le fuel (b ∷ []) (len + 1) n,
  store-ok dst j (promote signed a % 2 ^ 16),
  store-ok dst j (pair_char a b),
  convert_fits signed fuel (b ∷ []) (len + 1) n (j + 1) (set dst j (promote signed a % 2 ^ 16)),
  convert_fits signed fuel [] (len + 1) n (j + 1) (set dst j (pair_char a b)),
)
convert_fits signed (suc fuel) (a ∷ b ∷ d ∷ src) len n j dst c h e room = ground (
  arith,
  and_80 a,
  and_20 a,
  to_java_length_loop-le fuel src (len + 1) n,
  to_java_length_loop-le fuel (d ∷ src) (len + 1) n,
  to_java_length_loop-le fuel (b ∷ d ∷ src) (len + 1) n,
  store-ok dst j (promote signed a % 2 ^ 16),
  store-ok dst j (pair_char a b),
  store-ok dst j (triple_char a b d),
  convert_fits signed fuel (b ∷ d ∷ src) (len + 1) n (j + 1)
      (set dst j (promote signed a % 2 ^ 16)),
  convert_fits signed fuel (d ∷ src) (len + 1) n (j + 1) (set dst j (pair_char a b)),
  convert_fits signed fuel src (len + 1) n (j + 1) (set dst j (triple_char a b d)),
)

-- `utf8_to_java_length` counts the characters of every string that `utf8_check` accepts, and does
-- not read past the end of the memory given.
pub checked_measures :
    (src : List ℕ) → All IsByte src → check src ≡ ok true → (n : ℕ) × (to_java_length src ≡ ok n)
unfolding check to_java_length
checked_measures src h c = ok_of_is_ok _ (valid_length (length src + 1) src 0 h c)

-- `utf8_to_java` converts every string that `utf8_check` accepts into any buffer that has room for
-- the characters that `utf8_to_java_length` counts: no read passes the end of the memory given, no
-- write passes the end of the buffer, and the loop does not run out of fuel.
pub checked_converts :
    (signed : Bool) (src dst : List ℕ) (n : ℕ)
    → All IsByte src
    → check src ≡ ok true
    → to_java_length src ≡ ok n
    → n ≤ length dst
    → (out : List ℕ) × (to_java signed dst src ≡ ok out) × (length out ≡ length dst)
unfolding check to_java_length to_java
checked_converts signed src dst n h c e room =
    fills→ok _ _ (convert_fits signed (length src + 1) src 0 n 0 dst c h e (omega arith))
