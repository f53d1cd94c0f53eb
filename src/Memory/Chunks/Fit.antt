-- ===== src/Memory/Chunks/Fit.antt =====
-- `get_chunk` fails only where every free chunk is too small.
use jelatine.Common.{
  ℕ, zero, suc, ◌+◌, ◌-◌, ◌*◌, ◌%◌, ◌^◌, ◌≤◌, ◌<◌, ◌≡◌, refl, Bool, false, ◌||◌, none, List, [],
  ◌∷◌, arith, leb, ◌==◌, get_or, length, All, Option-cases, Bool-cases, List-cases, inl, inr,
}
use jelatine.Memory.Chunks.{
  Chunk, Bins, bin_entries, bin_max_size, bin_id, small_fit, first_fit, chop, large_head, get_chunk,
}
use jelatine.Memory.Chunks.Sum.{IsValid, IsLarge, first_fit-IsLarge, get_chunk-cases}
use jelatine.Memory.Chunks.Valid.{chop-IsValid, small_fit-IsValid, first_fit-room}

-- Whether some free chunk has at least `size` bytes; the bin `i` holds chunks of `i + 1` words.
abbrev bin_fits : ℕ → ℕ → List (List ℕ) → Bool
bin_fits size i [] = false
bin_fits size i ([] ∷ ls) = bin_fits size (i + 1) ls
bin_fits size i ((_ ∷ _) ∷ ls) = leb size ((i + 1) * 8) || bin_fits size (i + 1) ls

abbrev large_fits : ℕ → List Chunk → Bool
large_fits size [] = false
large_fits size (c ∷ l) = leb size c.size || large_fits size l

unfoldable pub fits : ℕ → Bins → Bool
fits size b = bin_fits size 0 b.bin || large_fits size b.large_bin

small_fit-none :
    (rounds id size k : ℕ) (b : Bins)
    → small_fit rounds id size b ≡ none
    → id ≤ k
    → k < id + rounds
    → get_or b.bin k [] ≡ []
unfolding small_fit
small_fit-none zero id size k b e lo hi = absurd (omega arith)
small_fit-none (suc rounds) id size k b e lo hi = elim (List-cases (get_or b.bin id [])) [
  | inl empty ↦ elim (Bool-cases (id == k)) [
    | inl same ↦ (let p : id ≡ k = ground arith in rw p at empty)
    | inr other ↦
        small_fit-none rounds (id + 1) size k b (rw (empty, small_fit) at e) (ground arith)
          (omega arith)
  ]
  | inr (res, next, found) ↦ cc (rw (found, small_fit) at e)
]

bin_fits-none :
    (size : ℕ) (ls : List (List ℕ)) (i : ℕ)
    → ((k : ℕ) → k < length ls → size ≤ (i + k + 1) * 8 → get_or ls k [] ≡ [])
    → bin_fits size i ls ≡ false
bin_fits-none size [] i h = refl
bin_fits-none size ([] ∷ ls) i h =
    bin_fits-none size ls (i + 1) (λ k lt le. h (suc k) (omega arith) (omega arith))
bin_fits-none size ((a ∷ l) ∷ ls) i h =
    ground
      (arith, h 0, bin_fits-none size ls (i + 1) (λ k lt le. h (suc k) (omega arith) (omega arith)))

first_fit-none : (size : ℕ) (l : List Chunk) → first_fit size l ≡ none → large_fits size l ≡ false
unfolding first_fit
first_fit-none size [] e = refl
first_fit-none size (c ∷ l) e = elim (Option-cases (first_fit size l)) [
  | inl n ↦ ground (arith, first_fit-none size l n)
  | inr ((d, next), f) ↦ ground arith
]

small_fit-none_fits :
    (size : ℕ) (b : Bins)
    → length b.bin ≡ bin_entries
    → 0 < size
    → size % 8 ≡ 0
    → size ≤ bin_max_size
    → small_fit (bin_entries - bin_id size) (bin_id size) size b ≡ none
    → bin_fits size 0 b.bin ≡ false
small_fit-none_fits size b v pos m s e = bin_fits-none size b.bin 0 λ k lt le.
    small_fit-none (bin_entries - bin_id size) (bin_id size) size k b e (omega arith) (omega arith)

large_head-null :
    (size : ℕ) (l : List Chunk) (b : Bins) → All IsLarge l → (large_head size l b).0 ≡ 0 → l ≡ []
unfolding large_head chop
large_head-null size [] b h e = refl
large_head-null size (c ∷ next) b h e = absurd (omega arith)

-- When `get_chunk` finds nothing in well-formed bins for a positive number of whole words, every
-- free chunk is smaller than what was asked for.
pub get_chunk-none :
    (size : ℕ) (b : Bins)
    → IsValid b
    → 0 < size
    → size % 8 ≡ 0
    → size < 2 ^ 64
    → (get_chunk size b).0 ≡ 0
    → fits size b ≡ false
unfolding fits
get_chunk-none size b v pos m lim e = elim (get_chunk-cases size b) [
  | inl (small, r, f, got) ↦
      let nz = small_fit-IsValid size pos m _ (bin_id size) b v (omega arith) (omega arith) f in
      absurd (omega (arith, nz.0, rw got at e))
  | inr (inl (small, n, got)) ↦
      rw (small_fit-none_fits size b v.entries pos m small n)
        (simp (large_head-null size b.large_bin b v.large (rw got at e)))
  | inr (inr (inl (big, (c, next), f, got))) ↦
      let large = first_fit-IsLarge size b.large_bin v.large f in
      let nz =
        chop-IsValid size pos m c next b v large.0 large.1 (first_fit-room size b.large_bin f) in
      absurd (omega (arith, nz.0, rw got at e))
  | inr (inr (inr (big, n, got))) ↦
      rw (bin_fits-none size b.bin 0 (λ k lt le. absurd (omega arith)))
        (first_fit-none size b.large_bin n)
]
