-- ===== src/Utf8/Tests.antt =====
-- The conversions at concrete inputs.
use jelatine.Common.{ℕ, ◌≡◌, refl, inl, inr, Bool, true, false, List, [], ◌∷◌, ◌++◌, arith, length}
use jelatine.Common.Outcome.{ok, zeros}
use jelatine.Utf8.{check, to_java_length, to_java, java_to_utf8, hash}
use jelatine.Utf8.Safety.{check_answers, checked_converts}
use jelatine.Utf8.Encode.{encoding, java_to_utf8-encoding}
use jelatine.Utf8.RoundTrip.{to_java-java_to_utf8}

-- "a", U+00E9, U+20AC, and the terminator
abbrev euro : List ℕ
euro = 0x61 ∷ 0xc3 ∷ 0xa9 ∷ 0xe2 ∷ 0x82 ∷ 0xac ∷ 0 ∷ []

-- a lead byte just before the terminator
abbrev cut : List ℕ
cut = 0x61 ∷ 0xe2 ∷ 0 ∷ []

euro_checked : check euro ≡ ok true
unfolding check
euro_checked = refl

cut_refused : check cut ≡ ok false
unfolding check
cut_refused = refl

euro_measured : to_java_length euro ≡ ok 3
unfolding to_java_length
euro_measured = refl

hash_a : hash true (0xc3 ∷ []) ≡ 0xfffd_4a66
unfolding hash
hash_a = refl

check_answers_example : (b : Bool) × (check cut ≡ ok b)
check_answers_example = check_answers cut (inr (inr (inl refl)))

checked_converts_example :
    (out : List ℕ) × (to_java true (zeros 4) euro ≡ ok out) × (length out ≡ 4)
checked_converts_example =
    checked_converts true euro (zeros 4) 3 (omega arith) euro_checked euro_measured (omega arith)

java_to_utf8-encoding_example :
    java_to_utf8 (0 ∷ 0x20ac ∷ []) ≡ ok (encoding (0 ∷ 0x20ac ∷ []) ++ (0 ∷ []))
java_to_utf8-encoding_example = java_to_utf8-encoding (0 ∷ 0x20ac ∷ []) (omega arith)

to_java-java_to_utf8_example :
    (str : List ℕ) × (java_to_utf8 (0 ∷ 0xd800 ∷ 0x20ac ∷ []) ≡ ok str)
    × (check str ≡ ok true)
    × (to_java_length str ≡ ok 3)
    × (to_java true (zeros 3) str ≡ ok (0 ∷ 0xd800 ∷ 0x20ac ∷ []))
to_java-java_to_utf8_example = to_java-java_to_utf8 true (0 ∷ 0xd800 ∷ 0x20ac ∷ []) (omega arith)
