-- ===== src/Utf8.antt =====
-- The conversions of src/jelatine/utf8_string.c between Java class file UTF-8 and Java characters.
-- A `char *` is the list of the bytes of memory from there on, so `src[k]` is a read that may fall
-- outside, and `i += n` drops `n` bytes. A `uint16_t *` to write to is the buffer as a list.
-- Each loop runs on fuel, one unit more than there are bytes.
mod Masks
pub mod Safety
pub mod Slashify
mod Tests
pub mod RoundTrip
pub mod Encode
use jelatine.Common.{
  ℕ, zero, suc, ◌+◌, ◌-◌, ◌*◌, ◌/◌, ◌%◌, ◌^◌, bit_and, bit_or, bit_xor, Bool, true, false, ◌&&◌,
  ◌||◌, List, [], ◌∷◌, ltb, leb, ◌==◌, if◌then◌else◌, length, set, drop,
}
use jelatine.Common.Outcome.{Outcome, ok, fault, stuck, ◌>>=◌, read, store, zeros}

-- The value of a `char` in an expression, modulo 2 ^ 32: `signed` says whether the target's plain
-- `char` is a signed type.
abbrev pub promote : Bool → ℕ → ℕ
promote signed b = if signed && leb 128 b then b + (2 ^ 32 - 256) else b

-- The `switch` of `utf8_check`: `hi` is `(unsigned char) src[i] >> 4`.
check_case : (List ℕ → Outcome Bool) → List ℕ → ℕ → Outcome Bool
check_case next src hi =
    if leb 0x8 hi && leb hi 0xb
    then ok false
    else if hi == 0xc || hi == 0xd
    then (do b ← read src 1; if bit_and b 0xc0 == 0x80 then next (drop 2 src) else ok false)
    else if hi == 0xe
    then (do
      b ← read src 1
      if bit_and b 0xc0 == 0x80
          then (do c ← read src 2; if bit_and c 0xc0 == 0x80 then next (drop 3 src) else ok false)
          else ok false)
    else if hi == 0xf
    then ok false
    else next (drop 1 src)

check_loop : ℕ → List ℕ → Outcome Bool
check_loop zero src = stuck
check_loop (suc fuel) src = do
  b ← read src 0
  if b == 0 then ok true else check_case (check_loop fuel) src (b / 16)

pub check : List ℕ → Outcome Bool
unfolding check_loop check_case
check src = check_loop (length src + 1) src

to_java_length_loop : ℕ → List ℕ → ℕ → Outcome ℕ
to_java_length_loop zero str len = stuck
to_java_length_loop (suc fuel) str len = do
  b ← read str 0
  if b == 0
      then ok len
      else to_java_length_loop fuel
          (drop (if bit_and b 0x80 == 0 then 1 else if bit_and b 0x20 == 0 then 2 else 3) str)
          (len + 1)

pub to_java_length : List ℕ → Outcome ℕ
unfolding to_java_length_loop
to_java_length str = to_java_length_loop (length str + 1) str 0

-- The characters of two and of three bytes, as assigned to a `uint16_t`.
abbrev pub pair_char : ℕ → ℕ → ℕ
pair_char b c = bit_or (bit_and b 0x1f * 2 ^ 6) (bit_and c 0x3f) % 2 ^ 16

abbrev pub triple_char : ℕ → ℕ → ℕ → ℕ
triple_char b c d =
    bit_or (bit_or (bit_and b 0xf * 2 ^ 12) (bit_and c 0x3f * 2 ^ 6)) (bit_and d 0x3f) % 2 ^ 16

-- The `switch` of `utf8_to_java`: the character at `src`, and the bytes that it takes.
to_java_case : Bool → List ℕ → ℕ → Outcome (ℕ × ℕ)
to_java_case signed src b =
    let hi = b / 16 in
    if hi == 0xc || hi == 0xd
    then (do c ← read src 1; ok (pair_char b c, 2))
    else if hi == 0xe
    then (do c ← read src 1; d ← read src 2; ok (triple_char b c d, 3))
    else ok (promote signed b % 2 ^ 16, 1)

to_java_loop : Bool → ℕ → List ℕ → ℕ → List ℕ → Outcome (List ℕ)
to_java_loop signed zero dst j src = stuck
to_java_loop signed (suc fuel) dst j src = do
  b ← read src 0
  if b == 0 then ok dst else do
    (jc, n) ← to_java_case signed src b
    dst' ← store dst j jc
    to_java_loop signed fuel dst' (j + 1) (drop n src)

pub to_java : Bool → List ℕ → List ℕ → Outcome (List ℕ)
unfolding to_java_loop to_java_case
to_java signed dst src = to_java_loop signed (length src + 1) dst 0 src

-- The first loop of `java_to_utf8`; `utf8_length` starts at 1, for the terminator.
utf8_length_loop : List ℕ → ℕ → ℕ
utf8_length_loop [] n = n
utf8_length_loop (jc ∷ chars) n = utf8_length_loop chars (
    if leb 1 jc && leb jc 0x7f
    then n + 1
    else if jc == 0 || (leb 0x80 jc && leb jc 0x7ff)
    then n + 2
    else if leb 0x800 jc
    then n + 3
    else n)

-- Its second loop, which writes the bytes of each character.
encode_loop : List ℕ → ℕ → List ℕ → Outcome (List ℕ)
encode_loop [] j str = ok str
encode_loop (jc ∷ chars) j str =
    if leb 1 jc && leb jc 0x7f
    then (do str ← store str j jc; encode_loop chars (j + 1) str)
    else if jc == 0 || (leb 0x80 jc && leb jc 0x7ff)
    then (do
      str ← store str j (bit_or 0xc0 (bit_and (jc / 2 ^ 6) 0x1f))
      str ← store str (j + 1) (bit_or 0x80 (bit_and jc 0x3f))
      encode_loop chars (j + 2) str)
    else if leb 0x800 jc
    then (do
      str ← store str j (bit_or 0xe0 (jc / 2 ^ 12))
      str ← store str (j + 1) (bit_or 0x80 (bit_and (jc / 2 ^ 6) 0x3f))
      str ← store str (j + 2) (bit_or 0x80 (bit_and jc 0x3f))
      encode_loop chars (j + 3) str)
    else encode_loop chars j str

-- `gc_malloc` returns cleared memory.
pub java_to_utf8 : List ℕ → Outcome (List ℕ)
unfolding utf8_length_loop encode_loop
java_to_utf8 chars = do
  let n = utf8_length_loop chars 1
  str ← store (zeros n) (n - 1) 0
  encode_loop chars 0 str

-- `strlen`
pub strlen : List ℕ → Outcome ℕ
strlen [] = fault
strlen (b ∷ src) = let rest = strlen src in if b == 0 then ok 0 else rest >>= λ n. ok (n + 1)

-- The loop of `utf8_slashify` over the `len` characters before the terminator.
slashify_loop : ℕ → List ℕ → List ℕ
slashify_loop zero src = src
slashify_loop (suc len) [] = []
slashify_loop (suc len) (b ∷ src) = (if b == b'.' then b'/' else b) ∷ slashify_loop len src

pub slashify : List ℕ → Outcome (List ℕ)
unfolding strlen slashify_loop
slashify src = do len ← strlen src; ok (slashify_loop len src)

-- `utf8_hash`, over the first `len` bytes, which are the list.
unfoldable hash_loop : Bool → List ℕ → ℕ → ℕ
hash_loop signed [] hash = hash
hash_loop signed (b ∷ bytes) hash =
    hash_loop signed bytes (bit_xor ((hash * 2 ^ 5 + hash) % 2 ^ 32) (promote signed b))

unfoldable pub hash : Bool → List ℕ → ℕ
unfolding hash_loop
hash signed bytes = hash_loop signed bytes 5381
