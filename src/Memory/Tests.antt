-- ===== src/Memory/Tests.antt =====
-- The memory manager at concrete states.
use jelatine.Common.{
  ℕ, ◌+◌, ◌-◌, ◌^◌, ◌%◌, ◌≤◌, ◌<◌, ◌≡◌, ◌≢◌, ◌⊎◌, refl, false, some, [], ◌∷◌, arith, length,
  replicate, set,
}
use jelatine.Util.{size_ceil}
use jelatine.Memory.Chunks.{Bins, chunk, no_chunks, put_chunk, get_chunk}
use jelatine.Memory.Chunks.Sum
use jelatine.Memory.Chunks.Fit.{fits, get_chunk-none}
use jelatine.Memory.Chunks.Extent.{
  covered, holds, get_chunk-covered, put_chunk-covered, no_chunks-IsValid, no_chunks-covered,
}
use jelatine.Memory.Heap.{Heap, init, grow, palloc, unified_size}
use jelatine.Memory.Heap.Layout
use jelatine.Memory.Heap.Layout.{init-IsValid, grow-IsValid, palloc-IsValid}

-- A small chunk of three words and a large one.
abbrev two : Bins
two = record { bin = set (replicate 16 []) 2 (64 ∷ []); large_bin = chunk 1024 160 ∷ [] }

two-IsValid : Sum.IsValid two
two-IsValid = record { entries = refl; nonnull = omega arith; large = omega arith }

two-covered : (x : ℕ) → covered x two ≤ 1
unfolding covered Sum.sum
two-covered x = ground arith

-- Two words are taken from the small chunk, and the third goes back to the bins.
take_two :
    get_chunk 16 two ≡ (64, record two { bin = set (set (replicate 16 []) 2 []) 0 (80 ∷ []) })
unfolding get_chunk put_chunk
take_two = refl

found_two : (get_chunk 16 two).0 ≢ 0
unfolding get_chunk
found_two = ground arith

get_chunk-covered_example :
    (covered 70 (get_chunk 16 two).1 ≤ 1)
    × (covered 70 two ≡ holds 70 (get_chunk 16 two).0 16 + covered 70 (get_chunk 16 two).1)
get_chunk-covered_example =
    get_chunk-covered 16 two 70 two-IsValid two-covered (omega arith) refl found_two

put_chunk-covered_example :
    (covered 2050 (put_chunk 2048 32 no_chunks) ≤ 1)
    × (covered 2050 (put_chunk 2048 32 no_chunks) ≡ holds 2050 2048 32 + covered 2050 no_chunks)
put_chunk-covered_example =
    put_chunk-covered 2048 32 no_chunks no_chunks-IsValid (λ x. omega (arith, no_chunks-covered x))
      refl (λ x lo hi. no_chunks-covered x) 2050

none_large : (get_chunk 168 two).0 ≡ 0
unfolding get_chunk
none_large = refl

get_chunk-none_example : fits 168 two ≡ false
get_chunk-none_example =
    get_chunk-none 168 two two-IsValid (omega arith) refl (omega arith) none_large

-- A heap of 4 KiB at 4096, with no free chunk, and 1 KiB of it still to be added.
abbrev full : Heap
full = record {
  collect = false;
  size = 3072;
  max_size = 4096;
  start = 4096;
  end = 7168;
  perm = 8192;
  bitmap = replicate 64 0;
  bins = no_chunks;
}

full-IsValid : Layout.IsValid full
full-IsValid = record {
  nonnull = omega arith;
  start_end = omega arith;
  end_perm = omega arith;
  perm_top = omega arith;
  top = omega arith;
  end_words = refl;
  perm_words = refl;
  size = refl;
  bits = omega arith;
  bins = no_chunks-IsValid;
  inside = λ x. omega (arith, no_chunks-covered x);
}

fits_word : 4096 + unified_size 65536 < 2 ^ 64
unfolding size_ceil
fits_word = omega arith

init-IsValid_example :
    Layout.IsValid (init 4096 65536)
    × ((init 4096 65536).max_size + length (init 4096 65536).bitmap ≡ unified_size 65536)
    × ((x : ℕ)
        → covered x (init 4096 65536).bins
          ≡ holds x (init 4096 65536).start ((init 4096 65536).end - (init 4096 65536).start))
init-IsValid_example = init-IsValid 4096 65536 (omega arith) (omega arith) fits_word

grow-IsValid_example :
    Layout.IsValid (grow 7168 512 full)
    × ((7168 + 512 ≤ (grow 7168 512 full).end) ⊎ ((grow 7168 512 full).end ≡ 8192))
    × ((x : ℕ)
        → covered x (grow 7168 512 full).bins
          ≡ holds x 7168 ((grow 7168 512 full).end - 7168) + covered x no_chunks)
grow-IsValid_example =
    grow-IsValid 7168 512 full full-IsValid (omega arith) (omega arith) refl refl (omega arith)
      (λ x lo hi. no_chunks-covered x)

abbrev taken_heap : Heap
taken_heap = record full { perm = 8168 }

taken : palloc 20 full ≡ some (8168, taken_heap)
unfolding palloc size_ceil
taken = refl

palloc-IsValid_example :
    Layout.IsValid taken_heap
    × (((◌≡◌ {A = ℕ} 20 0) × (◌≡◌ {A = ℕ} 8168 0) × (taken_heap ≡ full))
        ⊎ ((0 < 20)
            × (taken_heap.perm ≡ 8168)
            × (7168 ≤ 8168)
            × (8168 + 20 ≤ 8192)
            × ((8168 - 4096) % 8 ≡ 0)))
palloc-IsValid_example = palloc-IsValid 20 8168 full taken_heap full-IsValid (omega arith) taken
