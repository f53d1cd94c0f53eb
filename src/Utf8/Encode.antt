-- ===== src/Utf8/Encode.antt =====
-- What `java_to_utf8` writes, in plain arithmetic: one, two or three bytes for each character, a
-- zero as two bytes, and the terminator.
use mathlib.Core.List.{append-nil, append_assoc}
use jelatine.Common.{
  ℕ, zero, suc, ◌+◌, ◌/◌, ◌%◌, ◌^◌, ◌≤◌, ◌<◌, ◌≡◌, refl, ◌⊎◌, ap, ◌&&◌, List, [], ◌∷◌, ◌++◌, arith,
  leb, if◌then◌else◌, length, length-append, set-append, bit_and, bit_or, All, length-replicate,
}
use jelatine.Common.Outcome.{ok, store, zeros}
use jelatine.Common.Bits.{bit_and-mask}
use jelatine.Utf8.{utf8_length_loop, encode_loop, java_to_utf8}
use jelatine.Utf8.Masks.{or_c0, or_80, or_e0}

abbrev pub IsU16 : ℕ → Type 0
IsU16 c = c < 2 ^ 16

unfoldable pub encode_char : ℕ → List ℕ
encode_char c =
    if leb 1 c && leb c 0x7f
    then c ∷ []
    else if leb c 0x7ff
    then (0xc0 + c / 64) ∷ (0x80 + c % 64) ∷ []
    else (0xe0 + c / 4096) ∷ (0x80 + c / 64 % 64) ∷ (0x80 + c % 64) ∷ []

unfoldable pub encoding : List ℕ → List ℕ
encoding [] = []
encoding (c ∷ cs) = encode_char c ++ encoding cs

utf8_length_loop-encoding : (cs : List ℕ) (n : ℕ) → utf8_length_loop cs n ≡ n + length (encoding cs)
unfolding utf8_length_loop encoding encode_char
utf8_length_loop-encoding [] n = omega arith
utf8_length_loop-encoding (c ∷ cs) n = ground (
  arith,
  utf8_length_loop-encoding cs (n + 1),
  utf8_length_loop-encoding cs (n + 2),
  utf8_length_loop-encoding cs (n + 3),
)

-- The bytes as the code computes them.
lead_two : (c : ℕ) → c < 2048 → bit_or 0xc0 (bit_and (c / 2 ^ 6) 0x1f) ≡ 0xc0 + c / 64
lead_two c h = rw (bit_and-mask 5 (c / 64)) (rw (or_c0 (c / 64 % 32) (omega arith)) (omega arith))

lead_three : (c : ℕ) → IsU16 c → bit_or 0xe0 (c / 2 ^ 12) ≡ 0xe0 + c / 4096
lead_three c h = or_e0 (c / 4096) (omega arith)

low_six : (c : ℕ) → bit_or 0x80 (bit_and c 0x3f) ≡ 0x80 + c % 64
low_six c = rw (bit_and-mask 6 c) (or_80 (c % 64) (omega arith))

pub store-next :
    (pre rest : List ℕ) (x v j : ℕ)
    → j ≡ length pre
    → store (pre ++ (x ∷ rest)) j v ≡ ok ((pre ++ (v ∷ [])) ++ rest)
unfolding store
store-next pre rest x v j h = ground (arith, length-append pre (x ∷ rest), set-append pre rest x v)

-- One round of the loop, by the number of bytes of the character.
module _ (c : ℕ) (cs pre rest : List ℕ) (j : ℕ) (hj : j ≡ length pre) where
  step_one :
      1 ≤ c
      → c ≤ 0x7f
      → encode_loop (c ∷ cs) j (pre ++ (0 ∷ rest))
        ≡ encode_loop cs (j + 1) ((pre ++ (c ∷ [])) ++ rest)
  unfolding encode_loop
  step_one lo hi = ground (arith, store-next pre rest 0 c j)

  step_two :
      (c ≡ 0) ⊎ (0x80 ≤ c)
      → c ≤ 0x7ff
      → encode_loop (c ∷ cs) j (pre ++ (0 ∷ 0 ∷ rest))
        ≡ encode_loop cs (j + 2) ((pre ++ ((0xc0 + c / 64) ∷ (0x80 + c % 64) ∷ [])) ++ rest)
  unfolding encode_loop
  step_two lo hi =
      let p : List ℕ = (0xc0 + c / 64) ∷ [] in
      let q : List ℕ = (0x80 + c % 64) ∷ [] in
      ground (
        arith,
        lead_two c (omega arith),
        low_six c,
        store-next pre (0 ∷ rest) 0 (0xc0 + c / 64) j,
        length-append pre p,
        store-next (pre ++ p) rest 0 (0x80 + c % 64) (j + 1),
        append_assoc pre p q,
      )

  step_three :
      0x800 ≤ c
      → IsU16 c
      → encode_loop (c ∷ cs) j (pre ++ (0 ∷ 0 ∷ 0 ∷ rest))
        ≡ encode_loop cs
            (j + 3)
            ((pre ++ ((0xe0 + c / 4096) ∷ (0x80 + c / 64 % 64) ∷ (0x80 + c % 64) ∷ [])) ++ rest)
  unfolding encode_loop
  step_three lo hi =
      let p : List ℕ = (0xe0 + c / 4096) ∷ [] in
      let q : List ℕ = (0x80 + c / 64 % 64) ∷ [] in
      let r : List ℕ = (0x80 + c % 64) ∷ [] in
      ground (
        arith,
        lead_three c hi,
        low_six (c / 64),
        low_six c,
        store-next pre (0 ∷ 0 ∷ rest) 0 (0xe0 + c / 4096) j,
        length-append pre p,
        store-next (pre ++ p) (0 ∷ rest) 0 (0x80 + c / 64 % 64) (j + 1),
        length-append (pre ++ p) q,
        store-next ((pre ++ p) ++ q) rest 0 (0x80 + c % 64) (j + 2),
        append_assoc pre p q,
        append_assoc pre (p ++ q) r,
      )

  step_char :
      IsU16 c
      → encode_loop (c ∷ cs) j (pre ++ (zeros (length (encode_char c)) ++ rest))
        ≡ encode_loop cs (j + length (encode_char c)) ((pre ++ encode_char c) ++ rest)
  unfolding encode_char
  step_char h = ground (arith, step_one, step_two, step_three)

zeros-append : (m n : ℕ) (rest : List ℕ) → zeros (m + n) ++ rest ≡ zeros m ++ (zeros n ++ rest)
zeros-append zero n rest = let e : 0 + n ≡ n = omega arith in rw e
zeros-append (suc m) n rest =
    let e : suc m + n ≡ suc (m + n) = omega arith in rw e (ap (λ t. 0 ∷ t) (zeros-append m n rest))

-- The loop fills the cleared bytes between what is written and `tail`.
encode_loop-encoding :
    (cs pre tail : List ℕ) (j : ℕ)
    → All IsU16 cs
    → j ≡ length pre
    → encode_loop cs j (pre ++ (zeros (length (encoding cs)) ++ tail))
      ≡ ok (pre ++ (encoding cs ++ tail))
unfolding encoding
encode_loop-encoding [] pre tail j h hj = unfold encode_loop in refl
encode_loop-encoding (c ∷ cs) pre tail j (hc, h) hj = ground (
  arith,
  length-append (encode_char c) (encoding cs),
  zeros-append (length (encode_char c)) (length (encoding cs)) tail,
  step_char c cs pre (zeros (length (encoding cs)) ++ tail) j hj hc,
  length-append pre (encode_char c),
  append_assoc pre (encode_char c) (encoding cs ++ tail),
  append_assoc (encode_char c) (encoding cs) tail,
  encode_loop-encoding cs (pre ++ encode_char c) tail (j + length (encode_char c)) h,
)

last_zero : (n : ℕ) → store (zeros (n + 1)) n 0 ≡ ok (zeros n ++ (0 ∷ []))
last_zero n = ground (
  arith,
  zeros-append n 1 [],
  append-nil (zeros (n + 1)),
  append-nil (zeros n ++ (0 ∷ [])),
  length-replicate {A = ℕ} n 0,
  store-next (zeros n) [] 0 0 n,
)

-- `java_to_utf8` writes the encoding and the terminator, and no write passes the end of the
-- memory that it allocates for them.
pub java_to_utf8-encoding :
    (cs : List ℕ) → All IsU16 cs → java_to_utf8 cs ≡ ok (encoding cs ++ (0 ∷ []))
unfolding java_to_utf8
java_to_utf8-encoding cs h = ground (
  arith,
  utf8_length_loop-encoding cs 1,
  last_zero (length (encoding cs)),
  encode_loop-encoding cs [] (0 ∷ []) 0 h,
)
