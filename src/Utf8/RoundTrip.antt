-- ===== src/Utf8/RoundTrip.antt =====
-- `java_to_utf8` and back: what it writes is accepted by `utf8_check`, measures as many characters
-- as were given, and converts to those characters.
use mathlib.Core.List.{append-nil, append_assoc}
use jelatine.Common.{
  ℕ, zero, suc, ◌+◌, ◌*◌, ◌/◌, ◌%◌, ◌≤◌, ◌<◌, ◌≡◌, refl, ◌∙◌, ap, Bool, true, List, [], ◌∷◌, ◌++◌,
  arith, length, length-append, All,
}
use jelatine.Common.Outcome.{ok, zeros}
use jelatine.Common.Bits.{bit_and-mask, bit_or-disjoint}
use jelatine.Utf8.{
  check_case, check_loop, check, to_java_length_loop, to_java_length, to_java_case, to_java_loop,
  to_java, pair_char, triple_char, java_to_utf8,
}
use jelatine.Utf8.Masks.{and_c0, and_80, and_20}
use jelatine.Utf8.Encode.{IsU16, encode_char, encoding, store-next, java_to_utf8-encoding}

-- One round of each reader on an encoded character.
check-encode_char :
    (fuel c : ℕ) (rest : List ℕ)
    → IsU16 c
    → check_loop (suc fuel) (encode_char c ++ rest) ≡ check_loop fuel rest
unfolding check_loop check_case encode_char
check-encode_char fuel c rest h =
    ground (arith, and_c0 (0x80 + c % 64), and_c0 (0x80 + c / 64 % 64))

measure-encode_char :
    (fuel c len : ℕ) (rest : List ℕ)
    → IsU16 c
    → to_java_length_loop (suc fuel) (encode_char c ++ rest) len
      ≡ to_java_length_loop fuel rest (len + 1)
unfolding to_java_length_loop encode_char
measure-encode_char fuel c len rest h = ground (
  arith,
  and_80 c,
  and_80 (0xc0 + c / 64),
  and_20 (0xc0 + c / 64),
  and_80 (0xe0 + c / 4096),
  and_20 (0xe0 + c / 4096),
)

pair_char-encode : (c : ℕ) → c < 2048 → pair_char (0xc0 + c / 64) (0x80 + c % 64) ≡ c
pair_char-encode c h = ground (
  arith,
  bit_and-mask 5 (0xc0 + c / 64),
  bit_and-mask 6 (0x80 + c % 64),
  bit_or-disjoint 6 (c / 64) (c % 64),
)

triple_char-encode :
    (c : ℕ) → IsU16 c → triple_char (0xe0 + c / 4096) (0x80 + c / 64 % 64) (0x80 + c % 64) ≡ c
triple_char-encode c h = ground (
  arith,
  bit_and-mask 4 (0xe0 + c / 4096),
  bit_and-mask 6 (0x80 + c / 64 % 64),
  bit_and-mask 6 (0x80 + c % 64),
  bit_or-disjoint 12 (c / 4096) (c / 64 % 64 * 64),
  bit_or-disjoint 6 (c / 4096 * 64 + c / 64 % 64) (c % 64),
)

convert-encode_char :
    (signed : Bool) (fuel c x : ℕ) (pre pad rest : List ℕ)
    → IsU16 c
    → to_java_loop signed (suc fuel) (pre ++ (x ∷ pad)) (length pre) (encode_char c ++ rest)
      ≡ to_java_loop signed fuel ((pre ++ (c ∷ [])) ++ pad) (length pre + 1) rest
unfolding to_java_loop to_java_case encode_char
convert-encode_char signed fuel c x pre pad rest h =
    ground (arith, pair_char-encode c, triple_char-encode c, store-next pre pad x c (length pre))

length-encoding_le : (cs : List ℕ) → length cs ≤ length (encoding cs)
unfolding encoding encode_char
length-encoding_le [] = omega arith
length-encoding_le (c ∷ cs) = ground (arith, length-encoding_le cs)

check_loop-encoding :
    (fuel : ℕ) (cs rest : List ℕ)
    → All IsU16 cs
    → length cs < fuel
    → check_loop fuel (encoding cs ++ (0 ∷ rest)) ≡ ok true
unfolding encoding
check_loop-encoding zero cs rest h f = absurd (omega arith)
check_loop-encoding (suc fuel) [] rest h f = unfold check_loop in refl
check_loop-encoding (suc fuel) (c ∷ cs) rest (hc, h) f =
    rw (append_assoc (encode_char c) (encoding cs) (0 ∷ rest)) (
      check-encode_char fuel c (encoding cs ++ (0 ∷ rest)) hc
      ∙ check_loop-encoding fuel cs rest h (omega arith))

measure_loop-encoding :
    (fuel : ℕ) (cs rest : List ℕ) (len : ℕ)
    → All IsU16 cs
    → length cs < fuel
    → to_java_length_loop fuel (encoding cs ++ (0 ∷ rest)) len ≡ ok (len + length cs)
unfolding encoding
measure_loop-encoding zero cs rest len h f = absurd (omega arith)
measure_loop-encoding (suc fuel) [] rest len h f = unfold to_java_length_loop in ap ok (omega arith)
measure_loop-encoding (suc fuel) (c ∷ cs) rest len (hc, h) f = ground (
  arith,
  append_assoc (encode_char c) (encoding cs) (0 ∷ rest),
  measure-encode_char fuel c len (encoding cs ++ (0 ∷ rest)) hc,
  measure_loop-encoding fuel cs rest (len + 1) h,
)

convert_loop-encoding :
    (signed : Bool) (fuel : ℕ) (cs rest pre pad : List ℕ)
    → All IsU16 cs
    → length cs < fuel
    → to_java_loop signed fuel
        (pre ++ (zeros (length cs) ++ pad))
        (length pre)
        (encoding cs ++ (0 ∷ rest))
      ≡ ok (pre ++ (cs ++ pad))
unfolding encoding
convert_loop-encoding signed zero cs rest pre pad h f = absurd (omega arith)
convert_loop-encoding signed (suc fuel) [] rest pre pad h f = unfold to_java_loop in refl
convert_loop-encoding signed (suc fuel) (c ∷ cs) rest pre pad (hc, h) f = ground (
  arith,
  append_assoc (encode_char c) (encoding cs) (0 ∷ rest),
  convert-encode_char signed fuel c 0 pre (zeros (length cs) ++ pad) (encoding cs ++ (0 ∷ rest)) hc,
  length-append pre (c ∷ []),
  append_assoc pre (c ∷ []) (cs ++ pad),
  convert_loop-encoding signed fuel cs rest (pre ++ (c ∷ [])) pad h,
)

-- For every string of Java characters `cs`, surrogates included, `java_to_utf8` returns a C string
-- `str` that `utf8_check` accepts, on which `utf8_to_java_length` counts the characters of `cs`,
-- and that `utf8_to_java` converts back to `cs` in a buffer of that length, whatever the sign of
-- `char`.
pub to_java-java_to_utf8 :
    (signed : Bool) (cs : List ℕ)
    → All IsU16 cs
    → (str : List ℕ) × (java_to_utf8 cs ≡ ok str)
      × (check str ≡ ok true)
      × (to_java_length str ≡ ok (length cs))
      × (to_java signed (zeros (length cs)) str ≡ ok cs)
unfolding check to_java_length to_java
to_java-java_to_utf8 signed cs h =
    let enough : length cs < length (encoding cs ++ (0 ∷ [])) + 1 =
      omega (arith, length-encoding_le cs, length-append (encoding cs) (0 ∷ [])) in
    (
      encoding cs ++ (0 ∷ []),
      java_to_utf8-encoding cs h,
      check_loop-encoding _ cs [] h enough,
      measure_loop-encoding _ cs [] 0 h enough ∙ ap ok (omega arith),
      ground (
        arith,
        append-nil (zeros (length cs)),
        append-nil cs,
        convert_loop-encoding signed (length (encoding cs ++ (0 ∷ [])) + 1) cs [] [] [] h enough,
      ),
    )
