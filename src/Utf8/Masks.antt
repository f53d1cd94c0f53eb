-- ===== src/Utf8/Masks.antt =====
-- The masks of utf8_string.c on a byte, as tables checked by evaluation.
use jelatine.Common.{
  ℕ, zero, suc, ◌+◌, ◌*◌, ◌/◌, ◌%◌, ◌<◌, ◌≡◌, refl, Bool, true, bit_and, bit_or, ◌&&◌, ◌==◌, arith,
}

agree : (f g : ℕ → ℕ) → ℕ → Bool
agree f g zero = true
agree f g (suc n) = f n == g n && agree f g n

agree→eq : (f g : ℕ → ℕ) (n b : ℕ) → agree f g n ≡ true → b < n → f b ≡ g b
unfolding agree
agree→eq f g zero b e h = absurd (omega arith)
agree→eq f g (suc n) b e h = ground (arith, agree→eq f g n b)

pub and_c0 : (b : ℕ) → b < 256 → bit_and b 0xc0 ≡ b / 64 * 64
unfolding agree
and_c0 b h = agree→eq (λ b. bit_and b 0xc0) (λ b. b / 64 * 64) 256 b refl h

pub and_80 : (b : ℕ) → b < 256 → bit_and b 0x80 ≡ b / 128 * 128
unfolding agree
and_80 b h = agree→eq (λ b. bit_and b 0x80) (λ b. b / 128 * 128) 256 b refl h

pub and_20 : (b : ℕ) → b < 256 → bit_and b 0x20 ≡ b / 32 % 2 * 32
unfolding agree
and_20 b h = agree→eq (λ b. bit_and b 0x20) (λ b. b / 32 % 2 * 32) 256 b refl h

pub or_c0 : (b : ℕ) → b < 32 → bit_or 0xc0 b ≡ 0xc0 + b
unfolding agree
or_c0 b h = agree→eq (λ b. bit_or 0xc0 b) (λ b. 0xc0 + b) 32 b refl h

pub or_80 : (b : ℕ) → b < 64 → bit_or 0x80 b ≡ 0x80 + b
unfolding agree
or_80 b h = agree→eq (λ b. bit_or 0x80 b) (λ b. 0x80 + b) 64 b refl h

pub or_e0 : (b : ℕ) → b < 16 → bit_or 0xe0 b ≡ 0xe0 + b
unfolding agree
or_e0 b h = agree→eq (λ b. bit_or 0xe0 b) (λ b. 0xe0 + b) 16 b refl h
