-- ===== src/Memory/Chunks/Extent.antt =====
-- The bytes that the free chunks hold: how many there are, and how often each is covered.
use jelatine.Common.{
  ℕ, ◌+◌, ◌*◌, ◌%◌, ◌≤◌, ◌<◌, ◌≡◌, ◌≢◌, refl, ◌&&◌, List, [], ◌∷◌, arith, ltb, leb, if◌then◌else◌,
}
use jelatine.Memory.Chunks.{
  Chunk, Bins, no_chunks, put_chunk, get_chunk, count_bin, count_bins, count_large, free_memory,
}
use jelatine.Memory.Chunks.Sum.{
  Weight, IsAdditive, IsValid, bin_sum, bins_sum, large_sum, sum, sum-put_chunk, get_chunk-sum,
}

-- The bytes of an extent.
abbrev bytes : Weight
bytes a s = s

bytes-IsAdditive : IsAdditive bytes
bytes-IsAdditive = record { of_empty = λ a. refl; of_join = λ a s t. refl }

count_bin-sum : (i : ℕ) (l : List ℕ) (n : ℕ) → count_bin i l n ≡ n + bin_sum bytes ((i + 1) * 8) l
unfolding count_bin
count_bin-sum i [] n = omega arith
count_bin-sum i (a ∷ l) n = omega (arith, count_bin-sum i l (n + (i + 1) * 8))

count_bins-sum : (i : ℕ) (ls : List (List ℕ)) (n : ℕ) → count_bins i ls n ≡ n + bins_sum bytes i ls
unfolding count_bins
count_bins-sum i [] n = omega arith
count_bins-sum i (l ∷ ls) n =
    omega (arith, count_bin-sum i l n, count_bins-sum (i + 1) ls (count_bin i l n))

count_large-sum : (l : List Chunk) (n : ℕ) → count_large l n ≡ n + large_sum bytes l
unfolding count_large
count_large-sum [] n = omega arith
count_large-sum (c ∷ l) n = omega (arith, count_large-sum l (n + c.size))

free_memory-sum : (b : Bins) → free_memory b ≡ sum bytes b
unfolding free_memory sum
free_memory-sum b =
    omega (arith, count_bins-sum 0 b.bin 0, count_large-sum b.large_bin (count_bins 0 b.bin 0))

-- In well-formed bins, `gc_free_memory` counts `size` bytes less after `get_chunk` has handed out
-- a chunk of `size` bytes, a positive number of whole words.
pub free_memory-get_chunk :
    (size : ℕ) (b : Bins)
    → IsValid b
    → 0 < size
    → size % 8 ≡ 0
    → (get_chunk size b).0 ≢ 0
    → size + free_memory (get_chunk size b).1 ≡ free_memory b
free_memory-get_chunk size b v pos m found = omega (
  arith,
  free_memory-sum b,
  free_memory-sum (get_chunk size b).1,
  get_chunk-sum bytes bytes-IsAdditive size pos m b v found,
)

-- In well-formed bins, `gc_free_memory` counts `size` bytes more after `put_chunk` of `size`
-- bytes, a number of whole words.
pub free_memory-put_chunk :
    (start size : ℕ) (b : Bins)
    → IsValid b
    → size % 8 ≡ 0
    → free_memory (put_chunk start size b) ≡ size + free_memory b
free_memory-put_chunk start size b v m = omega (
  arith,
  free_memory-sum b,
  free_memory-sum (put_chunk start size b),
  sum-put_chunk bytes bytes-IsAdditive start size b v.entries m,
)

-- Whether the byte `x` lies in an extent, as a number.
abbrev pub holds : ℕ → Weight
holds x a s = if leb a x && ltb x (a + s) then 1 else 0

pub holds-IsAdditive : (x : ℕ) → IsAdditive (holds x)
holds-IsAdditive x = record { of_empty = λ a. ground arith; of_join = λ a s t. ground arith }

-- How many free chunks cover the byte `x`.
unfoldable pub covered : ℕ → Bins → ℕ
covered x b = sum (holds x) b

-- No byte is in two free chunks.
abbrev pub IsDisjoint : Bins → Type 0
IsDisjoint b = (x : ℕ) → covered x b ≤ 1

-- In well-formed bins whose free chunks are disjoint, when `get_chunk` hands out a chunk of
-- `size` bytes, a positive number of whole words, its bytes were free and are free no longer,
-- every other byte is as free as before, and the free chunks stay disjoint.
pub get_chunk-covered :
    (size : ℕ) (b : Bins) (x : ℕ)
    → IsValid b
    → IsDisjoint b
    → 0 < size
    → size % 8 ≡ 0
    → (get_chunk size b).0 ≢ 0
    → (covered x (get_chunk size b).1 ≤ 1)
      × (covered x b ≡ holds x (get_chunk size b).0 size + covered x (get_chunk size b).1)
unfolding covered
get_chunk-covered size b x v d pos m found =
    let e = get_chunk-sum (holds x) (holds-IsAdditive x) size pos m b v found in
    (omega (arith, e, d x), omega (arith, e))

-- In well-formed bins whose free chunks are disjoint, `put_chunk` of whole words none of which
-- was free makes the bytes of the chunk free, leaves every other byte as it was, and keeps the
-- free chunks disjoint.
pub put_chunk-covered :
    (start size : ℕ) (b : Bins)
    → IsValid b
    → IsDisjoint b
    → size % 8 ≡ 0
    → ((x : ℕ) → start ≤ x → x < start + size → covered x b ≡ 0)
    → (x : ℕ)
    → (covered x (put_chunk start size b) ≤ 1)
      × (covered x (put_chunk start size b) ≡ holds x start size + covered x b)
unfolding covered
put_chunk-covered start size b v d m free x =
    let e = sum-put_chunk (holds x) (holds-IsAdditive x) start size b v.entries m in
    (ground (arith, e, d x, free x), omega (arith, e))

pub no_chunks-IsValid : IsValid no_chunks
unfolding no_chunks
no_chunks-IsValid = record { entries = refl; nonnull = omega arith; large = tt }

pub no_chunks-covered : (x : ℕ) → covered x no_chunks ≡ 0
unfolding no_chunks covered sum
no_chunks-covered x = refl
