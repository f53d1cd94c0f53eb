-- ===== src/Common/Bits.antt =====
-- `&` with a mask and `|` of disjoint fields as arithmetic.
use Prim.Native.Nat.{
  ℕ, zero, suc, ◌+◌, ◌-◌, ◌*◌, ◌/◌, ◌%◌, ◌^◌, ◌≤◌, ◌<◌, min, max, bit_and, bit_or, digits,
  bit_and-bitwise, bit_or-bitwise,
}
use mathlib.Core.Path.{◌≡◌, refl, ap, ◌∙◌}
use native.Mathlib.Omega.{arith}
use native.Mathlib.Nat.{pow-suc, one-le-pow}

-- A recursion by binary digits, with one unit of fuel more than it needs.
one_more :
    (f : ℕ → ℕ → ℕ) (z : ℕ → ℕ) (fuel x y : ℕ)
    → x ≤ fuel
    → digits z f (suc fuel) x y ≡ digits z f fuel x y
one_more f z zero zero y h = refl
one_more f z zero (suc x) y h = elim h [ ]
one_more f z (suc fuel) zero y h = refl
one_more f z (suc fuel) (suc x) y h =
    ap (λ r. r * 2 + f (suc x % 2) (y % 2)) (one_more f z fuel (suc x / 2) (y / 2) (omega arith))

spare :
    (f : ℕ → ℕ → ℕ) (z : ℕ → ℕ) (k fuel x y : ℕ)
    → fuel ≡ k + x
    → digits z f fuel x y ≡ digits z f x x y
spare f z zero fuel x y e = let e' : fuel ≡ x = omega arith in rw e'
spare f z (suc k) fuel x y e =
    let e' : fuel ≡ suc (k + x) = omega arith in
    rw e' (one_more f z (k + x) x y (omega arith) ∙ spare f z k (k + x) x y refl)

-- The lowest digit of `&` and of `|`, and the other digits.
pub bit_or-low : (x y : ℕ) → bit_or x y ≡ bit_or (x / 2) (y / 2) * 2 + max (x % 2) (y % 2)
bit_or-low zero y = omega (arith, bit_or-bitwise 0 y, bit_or-bitwise 0 (y / 2))
bit_or-low (suc x) y =
    let half : ℕ = suc x / 2 in
    omega (
      arith,
      spare max (λ r. r) (x - half) x half (y / 2) (omega arith),
      bit_or-bitwise half (y / 2),
      bit_or-bitwise (suc x) y,
    )

pub bit_and-low : (x y : ℕ) → bit_and x y ≡ bit_and (x / 2) (y / 2) * 2 + min (x % 2) (y % 2)
bit_and-low zero y = omega (arith, bit_and-bitwise 0 y, bit_and-bitwise 0 (y / 2))
bit_and-low (suc x) y =
    let half : ℕ = suc x / 2 in
    omega (
      arith,
      spare min (λ r. 0) (x - half) x half (y / 2) (omega arith),
      bit_and-bitwise half (y / 2),
      bit_and-bitwise (suc x) y,
    )

-- `a & 0` and `a | 0`, by the number of digits.
with_zero : (n a : ℕ) → a ≤ n → (bit_and a 0 ≡ 0) × (bit_or a 0 ≡ a)
with_zero n zero h = (refl, refl)
with_zero zero (suc a) h = elim h [ ]
with_zero (suc n) (suc a) h =
    let ih = with_zero n (suc a / 2) (omega arith) in
    omega (arith, bit_or-low (suc a) 0, bit_and-low (suc a) 0, ih.0, ih.1)

mul-pow_suc : (q k : ℕ) → q * 2 ^ suc k ≡ 2 * (q * 2 ^ k)
mul-pow_suc q k = omega (arith, ap (λ (t : ℕ). q * t) (pow-suc 2 k))

-- `(q << k) | r` is a sum when `r` fits `k` bits.
pub bit_or-disjoint : (k q r : ℕ) → r < 2 ^ k → bit_or (q * 2 ^ k) r ≡ q * 2 ^ k + r
bit_or-disjoint zero q r h = ground (arith, (with_zero q q (omega arith)).1)
bit_or-disjoint (suc k) q r h = ground (
  arith,
  bit_or-low (q * 2 ^ suc k) r,
  mul-pow_suc q k,
  pow-suc 2 k,
  bit_or-disjoint k q (r / 2) (omega (arith, pow-suc 2 k)),
)

bit_and-split : (k q r : ℕ) → r < 2 ^ k → bit_and (q * 2 ^ k + r) (2 ^ k - 1) ≡ r
bit_and-split zero q r h = ground (arith, (with_zero (q * 1 + r) (q * 1 + r) (omega arith)).0)
bit_and-split (suc k) q r h = ground (
  arith,
  bit_and-low (q * 2 ^ suc k + r) (2 ^ suc k - 1),
  mul-pow_suc q k,
  pow-suc 2 k,
  one-le-pow k 2,
  bit_and-split k q (r / 2) (omega (arith, pow-suc 2 k)),
)

-- A mask of `k` low bits is the remainder by `2 ^ k`.
pub bit_and-mask : (k a : ℕ) → bit_and a (2 ^ k - 1) ≡ a % 2 ^ k
bit_and-mask k a = ground (arith, one-le-pow k 2, bit_and-split k (a / 2 ^ k) (a % 2 ^ k))

-- The binary digit number `k`.
abbrev pub digit : ℕ → ℕ → ℕ
digit zero a = a % 2
digit (suc k) a = digit k (a / 2)

pub bit_and-digit : (k a : ℕ) → bit_and a (2 ^ k) ≡ digit k a * 2 ^ k
bit_and-digit zero a = ground (arith, bit_and-low a 1, (with_zero (a / 2) (a / 2) (omega arith)).0)
bit_and-digit (suc k) a = ground (
  arith,
  bit_and-low a (2 ^ suc k),
  pow-suc 2 k,
  mul-pow_suc (digit k (a / 2)) k,
  bit_and-digit k (a / 2),
)

pub digit-bit_or : (k a : ℕ) → digit k (bit_or a (2 ^ k)) ≡ 1
digit-bit_or zero a = ground (arith, bit_or-low a 1)
digit-bit_or (suc k) a =
    let e : bit_or a (2 ^ suc k) / 2 ≡ bit_or (a / 2) (2 ^ k) =
      ground (arith, bit_or-low a (2 ^ suc k), pow-suc 2 k) in
    rw e (digit-bit_or k (a / 2))

pub digit-small : (k a : ℕ) → a < 2 ^ k → digit k a ≡ 0
digit-small zero a h = omega arith
digit-small (suc k) a h = digit-small k (a / 2) (omega (arith, pow-suc 2 k))

le_bit_and : (n a b : ℕ) → b ≤ n → bit_and a b ≤ b
le_bit_and n a zero h = omega (arith, (with_zero a a (omega arith)).0)
le_bit_and zero a (suc b) h = absurd (omega arith)
le_bit_and (suc n) a (suc b) h =
    ground (arith, bit_and-low a (suc b), le_bit_and n (a / 2) (suc b / 2) (omega arith))

-- A number that is masked is at most the mask.
pub bit_and-bound : (a b : ℕ) → bit_and a b ≤ b
bit_and-bound a b = le_bit_and b a b (omega arith)
