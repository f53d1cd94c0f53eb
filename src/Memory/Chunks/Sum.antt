-- ===== src/Memory/Chunks/Sum.antt =====
-- What the free chunks add up to. A weight gives each extent a number, and the extent cut in two
-- weighs as much as its parts: so the bytes, or how often a fixed byte is covered.
use jelatine.Common.{
  ℕ, zero, suc, ◌+◌, ◌-◌, ◌*◌, ◌%◌, ◌^◌, ◌≤◌, ◌<◌, ◌≡◌, ◌≢◌, refl, ap, ◌⊎◌, none, some, List, [],
  ◌∷◌, arith, leb, get_or, set, length, length-set, All, Option-cases, Bool-cases, List-cases, ◌∙◌,
  inl, inr,
}
use jelatine.Memory.Chunks.{
  Chunk, Bins, bin_entries, bin_max_size, bin_id, put_chunk, small_fit, first_fit, chop, large_head,
  get_chunk,
}

abbrev pub Weight : Type 0
Weight = ℕ → ℕ → ℕ

pub record IsAdditive (w : Weight) : Type 0 where
  pub of_empty : (a : ℕ) → w a 0 ≡ 0
  pub of_join : (a s t : ℕ) → w a (s + t) ≡ w a s + w (a + s) t

abbrev pub bin_sum : Weight → ℕ → List ℕ → ℕ
bin_sum w s [] = 0
bin_sum w s (a ∷ l) = w a s + bin_sum w s l

abbrev pub bins_sum : Weight → ℕ → List (List ℕ) → ℕ
bins_sum w i [] = 0
bins_sum w i (l ∷ ls) = bin_sum w ((i + 1) * 8) l + bins_sum w (i + 1) ls

abbrev pub large_sum : Weight → List Chunk → ℕ
large_sum w [] = 0
large_sum w (c ∷ l) = w c.start c.size + large_sum w l

unfoldable pub sum : Weight → Bins → ℕ
sum w b = bins_sum w 0 b.bin + large_sum w b.large_bin

-- A chunk of the large bin is a multiple of the word, and too large for the small bins.
abbrev pub IsLarge : Chunk → Type 0
IsLarge c = (0 < c.start) × (bin_max_size < c.size) × (c.size % 8 ≡ 0) × (c.size < 2 ^ 64)

pub record IsValid (b : Bins) : Type 0 where
  pub entries : length b.bin ≡ bin_entries
  pub nonnull : All (All (λ a. 0 < a)) b.bin
  pub large : All IsLarge b.large_bin

-- The chunk that the search finds is one of the large bin, and so are the others.
pub first_fit-IsLarge :
    (size : ℕ) (l : List Chunk) {c : Chunk} {next : List Chunk}
    → All IsLarge l
    → first_fit size l ≡ some (c, next)
    → IsLarge c × All IsLarge next
unfolding first_fit
first_fit-IsLarge size [] h e = cc
first_fit-IsLarge size (curr ∷ l) h e = elim (Option-cases (first_fit size l)) [
  | inl n ↦ ground arith
  | inr ((c, next), f) ↦ ground (arith, first_fit-IsLarge size l h.1 f)
]

-- The ways through `get_chunk`.
pub get_chunk-cases :
    (size : ℕ) (b : Bins)
    → ((size ≤ bin_max_size)
        × (r : ℕ × Bins) × (small_fit (bin_entries - bin_id size) (bin_id size) size b ≡ some r)
        × (get_chunk size b ≡ r))
      ⊎ ((size ≤ bin_max_size)
          × (small_fit (bin_entries - bin_id size) (bin_id size) size b ≡ none)
          × (get_chunk size b ≡ large_head size b.large_bin b))
      ⊎ ((bin_max_size < size)
          × (r : Chunk × List Chunk) × (first_fit size b.large_bin ≡ some r)
          × (get_chunk size b ≡ chop size r.0 r.1 b))
      ⊎ ((bin_max_size < size) × (first_fit size b.large_bin ≡ none) × (get_chunk size b ≡ (0, b)))
unfolding get_chunk
get_chunk-cases size b = elim (Bool-cases (leb size bin_max_size)) [
  | inl small ↦ elim (Option-cases (small_fit (bin_entries - bin_id size) (bin_id size) size b)) [
    | inl n ↦ inr (inl (ground arith, n, ground arith))
    | inr (r, e) ↦ inl (ground arith, r, e, ground arith)
  ]
  | inr big ↦ elim (Option-cases (first_fit size b.large_bin)) [
    | inl n ↦ inr (inr (inr (ground arith, n, ground arith)))
    | inr (r, f) ↦ inr (inr (inl (ground arith, r, f, ground arith)))
  ]
]

module _ (w : Weight) where
  bins_sum-push :
      (ls : List (List ℕ)) (i k a s : ℕ)
      → k < length ls
      → s ≡ (i + k + 1) * 8
      → bins_sum w i (set ls k (a ∷ get_or ls k [])) ≡ w a s + bins_sum w i ls
  bins_sum-push [] i k a s h e = absurd (omega arith)
  bins_sum-push (l ∷ ls) i zero a s h e = ground arith
  bins_sum-push (l ∷ ls) i (suc k) a s h e = ground (arith, bins_sum-push ls (i + 1) k a s)

  bins_sum-pop :
      (ls : List (List ℕ)) (i k a s : ℕ) (next : List ℕ)
      → get_or ls k [] ≡ a ∷ next
      → s ≡ (i + k + 1) * 8
      → w a s + bins_sum w i (set ls k next) ≡ bins_sum w i ls
  bins_sum-pop [] i k a s next h e = cc
  bins_sum-pop (l ∷ ls) i zero a s next h e = ground arith
  bins_sum-pop (l ∷ ls) i (suc k) a s next h e = ground (arith, bins_sum-pop ls (i + 1) k a s next)

  -- A chunk put back adds its weight.
  pub sum-put_chunk :
      IsAdditive w
      → (start size : ℕ) (b : Bins) → length b.bin ≡ bin_entries
      → size % 8 ≡ 0
      → sum w (put_chunk start size b) ≡ w start size + sum w b
  unfolding sum put_chunk
  sum-put_chunk add start size b v m =
      ground (arith, add.of_empty start, bins_sum-push b.bin 0 (bin_id size) start size)

  module _ (add : IsAdditive w) (size : ℕ) (pos : 0 < size) (words : size % 8 ≡ 0) where
    cut-sum :
        (id res : ℕ) (next : List ℕ) (b : Bins)
        → length b.bin ≡ bin_entries
        → size ≤ (id + 1) * 8
        → get_or b.bin id [] ≡ res ∷ next
        → w res size
            + sum w (
                put_chunk (res + size) ((id + 1) * 8 - size) (record b { bin = set b.bin id next }))
          ≡ sum w b
    cut-sum id res next b v h e =
        let b1 : Bins = record b { bin = set b.bin id next } in
        let left : ℕ = (id + 1) * 8 - size in
        let l : size + left ≡ (id + 1) * 8 = omega arith in
        let put =
          sum-put_chunk add (res + size) left b1 (length-set b.bin id next ∙ v) (omega arith) in
        let joined = add.of_join res size left in
        let popped = bins_sum-pop b.bin 0 id res ((id + 1) * 8) next e (omega arith) in
        unfold sum in omega (arith, put, rw l at joined, popped)

    small_fit-sum :
        (rounds id : ℕ) (b : Bins) {p : ℕ} {b' : Bins}
        → length b.bin ≡ bin_entries
        → size ≤ (id + 1) * 8
        → small_fit rounds id size b ≡ some (p, b')
        → w p size + sum w b' ≡ sum w b
    unfolding small_fit
    small_fit-sum zero id b v h e = cc
    small_fit-sum (suc rounds) id b v h e = elim (List-cases (get_or b.bin id [])) [
      | inl empty ↦ small_fit-sum rounds (id + 1) b v (omega arith) (rw (empty, small_fit) at e)
      | inr (res, next, found) ↦ ground (arith, cut-sum id res next b v h found)
    ]

    first_fit-sum :
        (l : List Chunk) {c : Chunk} {next : List Chunk}
        → first_fit size l ≡ some (c, next)
        → (size ≤ c.size) × (w c.start c.size + large_sum w next ≡ large_sum w l)
    unfolding first_fit
    first_fit-sum [] e = cc
    first_fit-sum (curr ∷ l) e = elim (Option-cases (first_fit size l)) [
      | inl n ↦ ground arith
      | inr ((c, next), f) ↦ ground (arith, first_fit-sum l f)
    ]

    chop-sum :
        (c : Chunk) (next : List Chunk) (b : Bins)
        → length b.bin ≡ bin_entries
        → size ≤ c.size
        → c.size % 8 ≡ 0
        → w c.start size + sum w (chop size c next b).1
          ≡ bins_sum w 0 b.bin + (w c.start c.size + large_sum w next)
    unfolding chop
    chop-sum c next b v h m =
        let left : ℕ = c.size - size in
        let l : size + left ≡ c.size = omega arith in
        let b1 : Bins = record b { large_bin = next } in
        let put = sum-put_chunk add (c.start + size) left b1 v (omega arith) in
        let joined = add.of_join c.start size left in
        unfold sum in omega (arith, put, rw l at joined)

    large_head-sum :
        (l : List Chunk) (b : Bins)
        → length b.bin ≡ bin_entries
        → All IsLarge l
        → size ≤ bin_max_size
        → (large_head size l b).0 ≢ 0
        → w (large_head size l b).0 size + sum w (large_head size l b).1
          ≡ bins_sum w 0 b.bin + large_sum w l
    unfolding large_head
    large_head-sum [] b v a h found = absurd (found refl)
    large_head-sum (c ∷ next) b v a h found =
        unfold chop in chop-sum c next b v (omega arith) (omega arith)

    -- A chunk that `get_chunk` hands out weighs what the free chunks lose.
    pub get_chunk-sum :
        (b : Bins)
        → IsValid b
        → (get_chunk size b).0 ≢ 0
        → w (get_chunk size b).0 size + sum w (get_chunk size b).1 ≡ sum w b
    unfolding chop
    get_chunk-sum b v found = elim (get_chunk-cases size b) [
      | inl (small, (p, b'), e, got) ↦
          rw got (small_fit-sum _ (bin_id size) b v.entries (ground arith) e)
      | inr (inl (small, n, got)) ↦
          rw got
            (unfold sum in large_head-sum b.large_bin b v.entries v.large small (rw got at found))
      | inr (inr (inl (big, (c, next), f, got))) ↦
          let (room, rest) = first_fit-sum b.large_bin f in
          let large = first_fit-IsLarge size b.large_bin v.large f in
          let cut = chop-sum c next b v.entries room large.0.2 in
          rw got (unfold sum in omega (arith, cut, rest))
      | inr (inr (inr (big, n, got))) ↦ absurd (found (ap (λ r. r.0) got))
    ]
