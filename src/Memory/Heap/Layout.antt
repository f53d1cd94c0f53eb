-- ===== src/Memory/Heap/Layout.antt =====
-- The layout of the heap: the managed part from `start` to `end`, the permanent area from `perm` to
-- `start + max_size`, what may still be added between them, and the bitmap behind.
use jelatine.Common.{
  ℕ, ◌+◌, ◌-◌, ◌*◌, ◌/◌, ◌%◌, ◌^◌, ◌≤◌, ◌<◌, ◌≡◌, refl, ap, sym, ◌⊎◌, inl, inr, false, ◌==◌,
  Bool-cases, some, ltb, if◌then◌else◌, length, length-replicate, arith,
}
use mathlib.Core.Option.{some-injective}
use mathlib.Core.Path.{subst}
use jelatine.Util.{size_ceil, size_floor}
use jelatine.Memory.Chunks.{no_chunks, put_chunk}
use jelatine.Memory.Chunks.Sum
use jelatine.Memory.Chunks.Valid.{put_chunk-IsValid}
use jelatine.Memory.Chunks.Extent.{
  covered, holds, put_chunk-covered, no_chunks-IsValid, no_chunks-covered,
}
use jelatine.Memory.Heap.{Heap, unified_size, usable_size, init, grow, palloc}

pub record IsValid (h : Heap) : Type 0 where
  pub nonnull : 0 < h.start
  pub start_end : h.start ≤ h.end
  pub end_perm : h.end ≤ h.perm
  pub perm_top : h.perm ≤ h.start + h.max_size
  pub top : h.start + h.max_size < 2 ^ 64
  pub end_words : (h.end - h.start) % 8 ≡ 0
  pub perm_words : (h.perm - h.start) % 8 ≡ 0
  pub size : h.size ≡ h.end - h.start
  pub bits : h.max_size ≤ 64 * length h.bitmap
  pub bins : Sum.IsValid h.bins
  -- The free chunks are disjoint and lie in the managed part.
  pub inside : (x : ℕ) → covered x h.bins ≤ holds x h.start (h.end - h.start)

sizes :
    (size : ℕ)
    → size < 2 ^ 56
    → (usable_size (unified_size size) % 8 ≡ 0)
      × (65 * usable_size (unified_size size) ≤ 64 * unified_size size)
      × (32000 ≤ usable_size (unified_size size))
      × (size_ceil (usable_size (unified_size size) / 16) 8 % 8 ≡ 0)
      × (size_ceil (usable_size (unified_size size) / 16) 8 ≤ usable_size (unified_size size))
      × (unified_size size < 2 ^ 57)
unfolding size_ceil size_floor
sizes size h = ground arith

-- One chunk in empty bins.
one_chunk :
    (base size x : ℕ)
    → size % 8 ≡ 0
    → covered x (put_chunk base size no_chunks) ≡ holds x base (base + size - base)
one_chunk base size x m =
    let put =
      put_chunk-covered base size no_chunks no_chunks-IsValid
        (λ y. omega (arith, no_chunks-covered y)) m (λ y lo hi. no_chunks-covered y) x in
    let e : base + size - base ≡ size = omega arith in
    rw e (omega (arith, put.1, no_chunks-covered x))

-- `gc_init` of less than 2 ^ 56 bytes, in a block that `malloc` has returned below 2 ^ 64, lays
-- out a heap: the managed part holds one free chunk, the bitmap has a bit for each word, and it
-- fits behind the words in the block that is allocated.
pub init-IsValid :
    (base size : ℕ)
    → 0 < base
    → size < 2 ^ 56
    → base + unified_size size < 2 ^ 64
    → IsValid (init base size)
      × ((init base size).max_size + length (init base size).bitmap ≡ unified_size size)
      × ((x : ℕ)
          → covered x (init base size).bins
            ≡ holds x (init base size).start ((init base size).end - (init base size).start))
unfolding init
init-IsValid base size nz h fits =
    let (m, bits, lo, im, ile, uh) = sizes size h in
    let heap_size : ℕ = usable_size (unified_size size) in
    let init_size : ℕ = size_ceil (heap_size / 16) 8 in
    let lr = length-replicate {A = ℕ} (unified_size size - heap_size) 0 in
    (
      record {
        nonnull = nz;
        start_end = omega arith;
        end_perm = omega arith;
        perm_top = omega arith;
        top = omega arith;
        end_words = omega arith;
        perm_words = omega arith;
        size = omega arith;
        bits = omega (arith, lr);
        bins = put_chunk-IsValid base init_size no_chunks no_chunks-IsValid nz im (omega arith);
        inside = λ x. omega (arith, one_chunk base init_size x im);
      },
      omega (arith, lr),
      λ x. one_chunk base init_size x im,
    )

-- A free extent from `from` up to a new end of the managed part.
module _ (from end : ℕ) (h : Heap) (v : IsValid h) (lo : h.start ≤ from) (hi : from ≤ h.end)
    (up : h.end ≤ end) (words : (end - from) % 8 ≡ 0)
    (free : (x : ℕ) → from ≤ x → x < h.end → covered x h.bins ≡ 0) where
  extend-covered :
      (x : ℕ)
      → (covered x (put_chunk from (end - from) h.bins) ≤ holds x h.start (end - h.start))
        × (covered x (put_chunk from (end - from) h.bins)
            ≡ holds x from (end - from) + covered x h.bins)
  extend-covered x =
      let put =
        put_chunk-covered from (end - from) h.bins v.bins (λ y. ground (arith, v.inside y)) words
          (λ y p q. ground (arith, v.inside y, free y)) x in
      (ground (arith, put.1, v.inside x, free x), put.1)

-- `gc_grow(from, size)` of whole words that do not pass 2 ^ 64, where `from` is the start of a
-- last free extent that is in no free chunk, keeps a valid layout: the managed part ends at least
-- `size` bytes further on or at the permanent area, and what lies behind `from` becomes free and
-- nothing else does.
pub grow-IsValid :
    (from size : ℕ) (h : Heap)
    → IsValid h
    → h.start ≤ from
    → from ≤ h.end
    → (from - h.start) % 8 ≡ 0
    → size % 8 ≡ 0
    → h.end + size < 2 ^ 64
    → ((x : ℕ) → from ≤ x → x < h.end → covered x h.bins ≡ 0)
    → IsValid (grow from size h)
      × ((h.end + size ≤ (grow from size h).end) ⊎ ((grow from size h).end ≡ h.perm))
      × ((x : ℕ)
          → covered x (grow from size h).bins
            ≡ holds x from ((grow from size h).end - from) + covered x h.bins)
unfolding grow
grow-IsValid from size h v lo hi fm sm lim free =
    let end : ℕ =
      if ltb h.perm ((h.end + size) % 2 ^ 64) then h.perm else (h.end + size) % 2 ^ 64 in
    let bounds : (h.end ≤ end) × (end ≤ h.perm) × ((end - h.start) % 8 ≡ 0) = ground arith in
    let cover = extend-covered from end h v lo hi bounds.0 (omega arith) free in
    (
      record {
        nonnull = v.nonnull;
        start_end = omega arith;
        end_perm = bounds.1;
        perm_top = v.perm_top;
        top = v.top;
        end_words = bounds.2;
        perm_words = v.perm_words;
        size = refl;
        bits = v.bits;
        bins =
            put_chunk-IsValid from (end - from) h.bins v.bins (omega arith) (omega arith)
              (omega arith);
        inside = λ x. (cover x).0;
      },
      ground arith,
      λ x. (cover x).1,
    )

palloc-taken :
    (size p : ℕ) (h h' : Heap)
    → IsValid h
    → size + 8 < h.perm
    → (size == 0) ≡ false
    → palloc size h ≡ some (p, h')
    → IsValid h' × (h'.perm ≡ p) × (h.end ≤ p) × (p + size ≤ h.perm) × ((p - h.start) % 8 ≡ 0)
unfolding palloc size_ceil
palloc-taken size p h h' v lim n e = ground arith

-- In a valid layout, for a request that is smaller than the permanent area's address by more than a
-- word, and where `gc_palloc` does not fall back to `gc_malloc`: it keeps the layout valid. For a
-- request of no bytes it returns NULL and takes nothing. For any other it returns a block of at least
-- `size` bytes, word-aligned like the heap, between the managed part and what was the permanent area
-- before, and the permanent area begins at the block.
pub palloc-IsValid :
    (size p : ℕ) (h h' : Heap)
    → IsValid h
    → size + 8 < h.perm
    → palloc size h ≡ some (p, h')
    → IsValid h'
      × (((size ≡ 0) × (p ≡ 0) × (h' ≡ h))
          ⊎ ((0 < size)
              × (h'.perm ≡ p)
              × (h.end ≤ p)
              × (p + size ≤ h.perm)
              × ((p - h.start) % 8 ≡ 0)))
unfolding palloc size_ceil
palloc-IsValid size p h h' v lim e = elim (Bool-cases (size == 0)) [
  | inl y ↦
      let r : (0, h) ≡ (p, h') = some-injective _ _ (rw (palloc, y) at e) in
      let same = ap (λ (z : ℕ × Heap). z.1) r in
      let z : size ≡ 0 = ground arith in
      let null = ap (λ (q : ℕ × Heap). q.0) r in (subst IsValid same v, inl (z, sym null, sym same))
  | inr n ↦
      let taken = palloc-taken size p h h' v lim n e in
      (taken.0, inr (ground arith, taken.1, taken.2, taken.3, taken.4))
]
