-- ===== src/Classes/Layout/Blocks.antt =====
-- The part of an object that the fields of each kind take, while `layout_fields` of
-- src/jelatine/loader.c hands out the offsets.
use jelatine.Common.{ℕ, ◌+◌, ◌-◌, ◌*◌, ◌/◌, ◌%◌, ◌^◌, ◌≤◌, ◌≡◌, refl, sym, arith, if◌then◌else◌}
use jelatine.Memory.Chunks.Extent.{holds, holds-IsAdditive}
use jelatine.Classes.Layout.{Kind, Offsets, offset, advance}
use jelatine.Classes.Layout.Sums.{same_kind, has_bit, has_ref}

-- The fields of each kind, one behind the other.
abbrev pub blocks : ℕ → Offsets → (Kind → ℕ) → ℕ
blocks b o t =
    holds b (8 * o.long_offset) (64 * t Kind.longs)
    + (holds b (8 * o.int_offset) (32 * t Kind.ints)
        + (holds b (8 * o.short_offset) (16 * t Kind.shorts)
            + (holds b (8 * o.byte_offset) (8 * t Kind.bytes)
                + holds b o.bit_offset (1 * t Kind.bits))))

pub blocks-none : (b : ℕ) (o : Offsets) (t : Kind → ℕ) → ((j : Kind) → t j ≡ 0) → blocks b o t ≡ 0
blocks-none b o t h =
    let empty = (holds-IsAdditive b).of_empty in
    rw (h Kind.longs, h Kind.ints, h Kind.shorts, h Kind.bytes, h Kind.bits)
      (omega (
        arith,
        empty (8 * o.long_offset),
        empty (8 * o.int_offset),
        empty (8 * o.short_offset),
        empty (8 * o.byte_offset),
        empty o.bit_offset,
      ))

pub extend : (b a w t c : ℕ) → a + w ≡ c → holds b a w + holds b c (w * t) ≡ holds b a (w * (1 + t))
extend b a w t c e =
    let whole : w * (1 + t) ≡ w + w * t = omega arith in
    rw (whole, ← e) (sym ((holds-IsAdditive b).of_join a w (w * t)))

abbrev pub IsNext : Kind → (Kind → ℕ) → (Kind → ℕ) → Type 0
IsNext k t t' = (j : Kind) → t' j ≡ (if same_kind j k then 1 + t j else t j)

pub blocks-step :
    (b : ℕ) (k : Kind) (o : Offsets) (t t' : Kind → ℕ)
    → IsNext k t t'
    → has_bit b k (offset k o) + blocks b (advance k o) t ≡ blocks b o t'
blocks-step b Kind.ref o t t' h =
    rw (h Kind.longs, h Kind.ints, h Kind.shorts, h Kind.bytes, h Kind.bits)
      (omega (arith, (holds-IsAdditive b).of_empty (8 * offset Kind.ref o)))
blocks-step b Kind.bits o t t' h =
    rw (h Kind.longs, h Kind.ints, h Kind.shorts, h Kind.bytes, h Kind.bits)
      (omega (arith, extend b o.bit_offset 1 (t Kind.bits) (o.bit_offset + 1) refl))
blocks-step b Kind.bytes o t t' h =
    rw (h Kind.longs, h Kind.ints, h Kind.shorts, h Kind.bytes, h Kind.bits)
      (omega (
        arith,
        extend b (8 * o.byte_offset) 8 (t Kind.bytes) (8 * (o.byte_offset + 1)) (omega arith),
      ))
blocks-step b Kind.shorts o t t' h =
    rw (h Kind.longs, h Kind.ints, h Kind.shorts, h Kind.bytes, h Kind.bits)
      (omega (
        arith,
        extend b (8 * o.short_offset) 16 (t Kind.shorts) (8 * (o.short_offset + 2)) (omega arith),
      ))
blocks-step b Kind.ints o t t' h =
    rw (h Kind.longs, h Kind.ints, h Kind.shorts, h Kind.bytes, h Kind.bits)
      (omega (
        arith,
        extend b (8 * o.int_offset) 32 (t Kind.ints) (8 * (o.int_offset + 4)) (omega arith),
      ))
blocks-step b Kind.longs o t t' h =
    rw (h Kind.longs, h Kind.ints, h Kind.shorts, h Kind.bytes, h Kind.bits)
      (omega (
        arith,
        extend b (8 * o.long_offset) 64 (t Kind.longs) (8 * (o.long_offset + 8)) (omega arith),
      ))

-- The offsets behind the fields, which fit 15 bits.
abbrev pub Fits : Offsets → (Kind → ℕ) → Type 0
Fits o t =
    ((o.ref_offset + t Kind.ref) * 8 ≤ 2 ^ 15)
    × (o.bit_offset + t Kind.bits ≤ 2 ^ 15)
    × (o.byte_offset + t Kind.bytes ≤ 2 ^ 15)
    × (o.short_offset + 2 * t Kind.shorts ≤ 2 ^ 15)
    × (o.int_offset + 4 * t Kind.ints ≤ 2 ^ 15)
    × (o.long_offset + 8 * t Kind.longs ≤ 2 ^ 15)

pub refs-step :
    (r a n : ℕ)
    → (a + (1 + n)) * 8 ≤ 2 ^ 15
    → holds r ((2 ^ 16 - (2 ^ 64 - (a + 1) * 8) % 2 ^ 16) / 8 - 1) 1 + holds r (a + 1) n
      ≡ holds r a (1 + n)
refs-step r a n fit =
    let decoded : (2 ^ 16 - (2 ^ 64 - (a + 1) * 8) % 2 ^ 16) / 8 - 1 ≡ a = omega arith in
    rw decoded (sym ((holds-IsAdditive r).of_join a 1 n))

-- What a field is given, where the offsets fit.
pub record Placed (k : Kind) (o : Offsets) (t t' : Kind → ℕ) : Type 0 where
  pub fits : Fits (advance k o) t
  pub value : (b : ℕ) → has_bit b k (offset k o % 2 ^ 16) ≡ has_bit b k (offset k o)
  pub refs :
      (r : ℕ)
      → has_ref r k (offset k o % 2 ^ 16) + holds r (advance k o).ref_offset (t Kind.ref)
        ≡ holds r o.ref_offset (t' Kind.ref)
  pub last : (advance k o).bit_offset + t Kind.bits ≡ o.bit_offset + t' Kind.bits

pub fits-Placed :
    (k : Kind) (o : Offsets) (t t' : Kind → ℕ) → IsNext k t t' → Fits o t' → Placed k o t t'
fits-Placed Kind.ref o t t' h fit =
    let a = h Kind.ref in
    let b = h Kind.bits in
    let c = h Kind.bytes in
    let d = h Kind.shorts in
    let i = h Kind.ints in
    let l = h Kind.longs in
    record {
      fits = omega arith;
      value = λ x. omega (
        arith,
        (holds-IsAdditive x).of_empty (8 * offset Kind.ref o),
        (holds-IsAdditive x).of_empty (8 * (offset Kind.ref o % 2 ^ 16)),
      );
      refs = λ r. rw a (refs-step r o.ref_offset (t Kind.ref) (omega arith));
      last = omega arith;
    }
fits-Placed Kind.bits o t t' h fit =
    let a = h Kind.ref in
    let b = h Kind.bits in
    let c = h Kind.bytes in
    let d = h Kind.shorts in
    let i = h Kind.ints in
    let l = h Kind.longs in
    let small : o.bit_offset % 2 ^ 16 ≡ o.bit_offset = omega arith in
    record {
      fits = omega arith;
      value = λ x. rw small refl;
      refs = λ r. rw a (omega arith);
      last = omega arith;
    }
fits-Placed Kind.bytes o t t' h fit =
    let a = h Kind.ref in
    let b = h Kind.bits in
    let c = h Kind.bytes in
    let d = h Kind.shorts in
    let i = h Kind.ints in
    let l = h Kind.longs in
    let small : o.byte_offset % 2 ^ 16 ≡ o.byte_offset = omega arith in
    record {
      fits = omega arith;
      value = λ x. rw small refl;
      refs = λ r. rw a (omega arith);
      last = omega arith;
    }
fits-Placed Kind.shorts o t t' h fit =
    let a = h Kind.ref in
    let b = h Kind.bits in
    let c = h Kind.bytes in
    let d = h Kind.shorts in
    let i = h Kind.ints in
    let l = h Kind.longs in
    let small : o.short_offset % 2 ^ 16 ≡ o.short_offset = omega arith in
    record {
      fits = omega arith;
      value = λ x. rw small refl;
      refs = λ r. rw a (omega arith);
      last = omega arith;
    }
fits-Placed Kind.ints o t t' h fit =
    let a = h Kind.ref in
    let b = h Kind.bits in
    let c = h Kind.bytes in
    let d = h Kind.shorts in
    let i = h Kind.ints in
    let l = h Kind.longs in
    let small : o.int_offset % 2 ^ 16 ≡ o.int_offset = omega arith in
    record {
      fits = omega arith;
      value = λ x. rw small refl;
      refs = λ r. rw a (omega arith);
      last = omega arith;
    }
fits-Placed Kind.longs o t t' h fit =
    let a = h Kind.ref in
    let b = h Kind.bits in
    let c = h Kind.bytes in
    let d = h Kind.shorts in
    let i = h Kind.ints in
    let l = h Kind.longs in
    let small : o.long_offset % 2 ^ 16 ≡ o.long_offset = omega arith in
    record {
      fits = omega arith;
      value = λ x. rw small refl;
      refs = λ r. rw a (omega arith);
      last = omega arith;
    }
