-- ===== src/Memory/Chunks.antt =====
-- The bins of free chunks of src/jelatine/memory.c: `put_chunk`, `get_chunk` and
-- `gc_free_memory`. A bin is the list of its chunks from the head on; in the program the links and
-- the size of a large chunk stand in the free memory itself. `sizeof(jword_t)` is 8.
pub mod Sum
pub mod Valid
pub mod Extent
pub mod Fit
use jelatine.Common.{
  ℕ, zero, suc, ◌+◌, ◌-◌, ◌*◌, ◌/◌, ◌%◌, ◌^◌, Option, none, some, List, [], ◌∷◌, leb, ◌==◌,
  if◌then◌else◌, get_or, set, replicate,
}

abbrev pub bin_entries : ℕ
bin_entries = 16

abbrev pub bin_max_size : ℕ
bin_max_size = bin_entries * 8

pub record Chunk : Type 0 where
  pub start : ℕ
  pub size : ℕ

abbrev pub chunk : ℕ → ℕ → Chunk
chunk a s = record { start = a; size = s }

pub record Bins : Type 0 where
  pub bin : List (List ℕ)
  pub large_bin : List Chunk

unfoldable pub no_chunks : Bins
no_chunks = record { bin = replicate bin_entries []; large_bin = [] }

-- `uint32_t id = (size / sizeof(jword_t)) - 1`
abbrev pub bin_id : ℕ → ℕ
bin_id size = (size / 8 + (2 ^ 64 - 1)) % 2 ^ 64 % 2 ^ 32

unfoldable pub put_chunk : ℕ → ℕ → Bins → Bins
put_chunk start size b =
    if size == 0
    then b
    else if leb size bin_max_size
    then record b { bin = set b.bin (bin_id size) (start ∷ get_or b.bin (bin_id size) []) }
    else record b { large_bin = chunk start size ∷ b.large_bin }

-- The loop over the small bins from `id` on, with the bins that are left to look at.
pub small_fit : ℕ → ℕ → ℕ → Bins → Option (ℕ × Bins)
small_fit zero id size b = none
small_fit (suc rounds) id size b = elim (get_or b.bin id []) [
  | res ∷ next ↦
      some
        (res, put_chunk (res + size) ((id + 1) * 8 - size) (record b { bin = set b.bin id next }))
  | [] ↦ small_fit rounds (id + 1) size b
]

-- The search through the large bin: the chunk found, and the list without it.
pub first_fit : ℕ → List Chunk → Option (Chunk × List Chunk)
first_fit size [] = none
first_fit size (curr ∷ next) =
    let rest = first_fit size next in
    if leb size curr.size
    then some (curr, next)
    else elim rest [ none ↦ none | some (found, next') ↦ some (found, curr ∷ next') ]

-- Cutting `size` bytes off a large chunk.
pub chop : ℕ → Chunk → List Chunk → Bins → ℕ × Bins
chop size c next b =
    (c.start, put_chunk (c.start + size) (c.size - size) (record b { large_bin = next }))

-- The list is `heap.large_bin`.
pub large_head : ℕ → List Chunk → Bins → ℕ × Bins
large_head size [] b = (0, b)
large_head size (lchunk ∷ next) b = chop size lchunk next b

-- The address is 0 where there is no chunk.
unfoldable pub get_chunk : ℕ → Bins → ℕ × Bins
unfolding small_fit first_fit chop large_head
get_chunk size b =
    if leb size bin_max_size
    then elim (small_fit (bin_entries - bin_id size) (bin_id size) size b) [
      | some r ↦ r
      | none ↦ large_head size b.large_bin b
    ]
    else elim (first_fit size b.large_bin) [ none ↦ (0, b) | some (c, next) ↦ chop size c next b ]

-- The loops of `gc_free_memory`.
count_bin : ℕ → List ℕ → ℕ → ℕ
count_bin i [] size = size
count_bin i (_ ∷ next) size = count_bin i next (size + (i + 1) * 8)

count_bins : ℕ → List (List ℕ) → ℕ → ℕ
count_bins i [] size = size
count_bins i (schunk ∷ bin) size = count_bins (i + 1) bin (count_bin i schunk size)

count_large : List Chunk → ℕ → ℕ
count_large [] size = size
count_large (lchunk ∷ next) size = count_large next (size + lchunk.size)

pub free_memory : Bins → ℕ
unfolding count_bin count_bins count_large
free_memory b = count_large b.large_bin (count_bins 0 b.bin 0)
