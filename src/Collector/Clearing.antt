-- ===== src/Collector/Clearing.antt =====
-- `gc_purge_bin` of src/jelatine/memory.c, with which a collection begins: the bins are emptied, and
-- the memory of the free chunks is cleared, so that the sweep finds no header in it.
use jelatine.Common.{
  ℕ, zero, suc, ◌+◌, ◌*◌, ◌/◌, ◌%◌, ◌≡◌, refl, ap, ◌∙◌, List, [], ◌∷◌, arith, ◌==◌, if◌then◌else◌,
  All,
}
use jelatine.Memory.Chunks.{Chunk, Bins, no_chunks}
use jelatine.Memory.Chunks.Sum.{sum, bin_sum, bins_sum, large_sum, IsLarge, IsValid}
use jelatine.Memory.Chunks.Extent.{holds, covered, no_chunks-covered}
use jelatine.Collector.{Memory, write}

-- `memset` of `n` words to 0.
unfoldable pub clear_words : ℕ → ℕ → Memory → Memory
clear_words zero start m = m
clear_words (suc n) start m = clear_words n (start + 8) (write m start 0)

-- The loop over a small bin, with chunks of `size` bytes.
unfoldable pub clear_bin : ℕ → List ℕ → Memory → Memory
clear_bin size [] m = m
clear_bin size (schunk ∷ next) m = clear_bin size next (clear_words (size / 8) schunk m)

unfoldable pub clear_bins : ℕ → List (List ℕ) → Memory → Memory
clear_bins i [] m = m
clear_bins i (chunks ∷ bins) m = clear_bins (i + 1) bins (clear_bin ((i + 1) * 8) chunks m)

unfoldable pub clear_large : List Chunk → Memory → Memory
clear_large [] m = m
clear_large (lchunk ∷ next) m = clear_large next (clear_words (lchunk.size / 8) lchunk.start m)

unfoldable pub purge_bin : Bins → Memory → Bins × Memory
purge_bin b m = (no_chunks, clear_large b.large_bin (clear_bins 0 b.bin m))

-- The free chunks start at whole words.
pub record IsAligned (b : Bins) : Type 0 where
  pub small : All (All (λ a. a % 8 ≡ 0)) b.bin
  pub large : All (λ (c : Chunk). c.start % 8 ≡ 0) b.large_bin

-- A word that is cleared where a count is positive.
abbrev cleared_by : ℕ → ℕ → ℕ
cleared_by n word = if n == 0 then word else 0

cleared_twice : (u v word : ℕ) → cleared_by v (cleared_by u word) ≡ cleared_by (u + v) word
cleared_twice u v word = ground arith

module _ (x : ℕ) (word : x % 8 ≡ 0) where
  clear_words-cleared :
      (n start : ℕ) (m : Memory)
      → start % 8 ≡ 0
      → clear_words n start m x ≡ cleared_by (holds x start (8 * n)) (m x)
  unfolding clear_words
  clear_words-cleared zero start m aligned = ground arith
  clear_words-cleared (suc n) start m aligned =
      clear_words-cleared n (start + 8) (write m start 0) (omega arith) ∙ ground arith

  clear_bin-cleared :
      (size : ℕ) (l : List ℕ) (m : Memory)
      → size % 8 ≡ 0
      → All (λ a. a % 8 ≡ 0) l
      → clear_bin size l m x ≡ cleared_by (bin_sum (holds x) size l) (m x)
  unfolding clear_bin
  clear_bin-cleared size [] m words aligned = refl
  clear_bin-cleared size (a ∷ l) m words aligned =
      let whole : 8 * (size / 8) ≡ size = omega arith in
      clear_bin-cleared size l (clear_words (size / 8) a m) words aligned.1
      ∙ ap (cleared_by (bin_sum (holds x) size l)) (
          clear_words-cleared (size / 8) a m aligned.0
          ∙ ap (λ s. cleared_by (holds x a s) (m x)) whole)
      ∙ cleared_twice (holds x a size) (bin_sum (holds x) size l) (m x)

  clear_bins-cleared :
      (i : ℕ) (ls : List (List ℕ)) (m : Memory)
      → All (All (λ a. a % 8 ≡ 0)) ls
      → clear_bins i ls m x ≡ cleared_by (bins_sum (holds x) i ls) (m x)
  unfolding clear_bins
  clear_bins-cleared i [] m aligned = refl
  clear_bins-cleared i (l ∷ ls) m aligned =
      clear_bins-cleared (i + 1) ls (clear_bin ((i + 1) * 8) l m) aligned.1
      ∙ ap (cleared_by (bins_sum (holds x) (i + 1) ls))
          (clear_bin-cleared ((i + 1) * 8) l m (omega arith) aligned.0)
      ∙ cleared_twice (bin_sum (holds x) ((i + 1) * 8) l) (bins_sum (holds x) (i + 1) ls) (m x)

  clear_large-cleared :
      (l : List Chunk) (m : Memory)
      → All IsLarge l
      → All (λ (c : Chunk). c.start % 8 ≡ 0) l
      → clear_large l m x ≡ cleared_by (large_sum (holds x) l) (m x)
  unfolding clear_large
  clear_large-cleared [] m sizes aligned = refl
  clear_large-cleared (c ∷ l) m sizes aligned =
      let whole : 8 * (c.size / 8) ≡ c.size = (let s = sizes.0.2 in omega arith) in
      clear_large-cleared l (clear_words (c.size / 8) c.start m) sizes.1 aligned.1
      ∙ ap (cleared_by (large_sum (holds x) l)) (
          clear_words-cleared (c.size / 8) c.start m aligned.0
          ∙ ap (λ s. cleared_by (holds x c.start s) (m x)) whole)
      ∙ cleared_twice (holds x c.start c.size) (large_sum (holds x) l) (m x)

  -- In well-formed bins whose chunks start at whole words, `gc_purge_bin` leaves no byte free, sets
  -- every whole word of the memory that was in a free chunk to 0, and changes no other.
  pub purge_bin-covered :
      (b : Bins) (m : Memory)
      → IsValid b
      → IsAligned b
      → (covered x (purge_bin b m).0 ≡ 0)
        × ((purge_bin b m).1 x ≡ (if covered x b == 0 then m x else 0))
  unfolding purge_bin covered sum
  purge_bin-covered b m v aligned = (
    unfold no_chunks in no_chunks-covered x,
    clear_large-cleared b.large_bin (clear_bins 0 b.bin m) v.large aligned.large
        ∙ ap (cleared_by (large_sum (holds x) b.large_bin))
            (clear_bins-cleared 0 b.bin m aligned.small)
        ∙ cleared_twice (bins_sum (holds x) 0 b.bin) (large_sum (holds x) b.large_bin) (m x),
  )
