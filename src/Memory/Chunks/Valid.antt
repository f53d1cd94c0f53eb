-- ===== src/Memory/Chunks/Valid.antt =====
-- `put_chunk` and `get_chunk` keep the bins well formed, and `get_chunk` fails only where every
-- free chunk is too small.
use jelatine.Common.{
  ℕ, zero, suc, ◌+◌, ◌-◌, ◌*◌, ◌%◌, ◌^◌, ◌≤◌, ◌<◌, ◌≡◌, ◌∙◌, some, List, [], ◌∷◌, arith, leb, ◌==◌,
  get_or, set, length-set, All, Option-cases, Bool-cases, List-cases, inl, inr,
}
use mathlib.Core.Path.{subst}
use mathlib.Core.Option.{some-injective}
use jelatine.Memory.Chunks.{
  Chunk, Bins, bin_entries, bin_max_size, bin_id, put_chunk, small_fit, first_fit, chop, large_head,
  get_chunk,
}
use jelatine.Memory.Chunks.Sum.{IsValid, IsLarge, first_fit-IsLarge, get_chunk-cases}

abbrev Nonnull : List (List ℕ) → Type 0
Nonnull = All (All (λ a. 0 < a))

Nonnull-set :
    (ls : List (List ℕ)) (k : ℕ) (l : List ℕ)
    → Nonnull ls
    → All (λ a. 0 < a) l
    → Nonnull (set ls k l)
Nonnull-set [] k l h hl = tt
Nonnull-set (x ∷ ls) zero l h hl = (hl, h.1)
Nonnull-set (x ∷ ls) (suc k) l h hl = (h.0, Nonnull-set ls k l h.1 hl)

Nonnull-get_or : (ls : List (List ℕ)) (k : ℕ) → Nonnull ls → All (λ a. 0 < a) (get_or ls k [])
Nonnull-get_or [] k h = tt
Nonnull-get_or (x ∷ ls) zero h = h.0
Nonnull-get_or (x ∷ ls) (suc k) h = Nonnull-get_or ls k h.1

-- A chunk of whole words that does not start at 0 can be put back.
pub put_chunk-IsValid :
    (start size : ℕ) (b : Bins)
    → IsValid b
    → 0 < start
    → size % 8 ≡ 0
    → size < 2 ^ 64
    → IsValid (put_chunk start size b)
unfolding put_chunk
put_chunk-IsValid start size b v nz m small = elim (Bool-cases (size == 0)) [
  | inl e ↦ rw e v
  | inr ne ↦ elim (Bool-cases (leb size bin_max_size)) [
    | inl le ↦
        rw (ne, le)
          (record {
            entries =
                length-set b.bin (bin_id size) (start ∷ get_or b.bin (bin_id size) []) ∙ v.entries;
            nonnull =
                Nonnull-set b.bin (bin_id size) (start ∷ get_or b.bin (bin_id size) []) v.nonnull
                  (nz, Nonnull-get_or b.bin (bin_id size) v.nonnull);
            large = v.large;
          })
    | inr gt ↦
        rw (ne, gt)
          (record {
            entries = v.entries;
            nonnull = v.nonnull;
            large = ((nz, ground arith, m, small), v.large);
          })
  ]
]

pub first_fit-room :
    (size : ℕ) (l : List Chunk) {c : Chunk} {next : List Chunk}
    → first_fit size l ≡ some (c, next)
    → size ≤ c.size
unfolding first_fit
first_fit-room size [] e = cc
first_fit-room size (curr ∷ l) e = elim (Option-cases (first_fit size l)) [
  | inl n ↦ ground arith
  | inr ((c, next), f) ↦ ground (arith, first_fit-room size l f)
]

module _ (size : ℕ) (pos : 0 < size) (words : size % 8 ≡ 0) where
  pub chop-IsValid :
      (c : Chunk) (next : List Chunk) (b : Bins)
      → IsValid b
      → IsLarge c
      → All IsLarge next
      → size ≤ c.size
      → (0 < (chop size c next b).0) × IsValid (chop size c next b).1
  unfolding chop
  chop-IsValid c next b v hc hn h = (
    hc.0,
    put_chunk-IsValid (c.start + size) (c.size - size) (record b { large_bin = next })
        (record { entries = v.entries; nonnull = v.nonnull; large = hn }) (omega arith)
        (omega arith) (omega arith),
  )

  large_head-IsValid :
      (l : List Chunk) (b : Bins)
      → IsValid b
      → All IsLarge l
      → size ≤ bin_max_size
      → IsValid (large_head size l b).1
  unfolding large_head
  large_head-IsValid [] b v h s = v
  large_head-IsValid (c ∷ next) b v h s = (chop-IsValid c next b v h.0 h.1 (omega arith)).1

  pub small_fit-IsValid :
      (rounds id : ℕ) (b : Bins) {r : ℕ × Bins}
      → IsValid b
      → size ≤ (id + 1) * 8
      → id + rounds ≤ bin_entries
      → small_fit rounds id size b ≡ some r
      → (0 < r.0) × IsValid r.1
  unfolding small_fit
  small_fit-IsValid zero id b v h n e = cc
  small_fit-IsValid (suc rounds) id b {r} v h n e = elim (List-cases (get_or b.bin id [])) [
    | inl empty ↦
        small_fit-IsValid rounds (id + 1) b v (omega arith) (omega arith)
          (rw (empty, small_fit) at e)
    | inr (res, next, found) ↦
        let all : All (λ a. 0 < a) (res ∷ next) = rw found at (Nonnull-get_or b.bin id v.nonnull) in
        let b1 : Bins = record b { bin = set b.bin id next } in
        let v1 : IsValid b1 = record {
          entries = length-set b.bin id next ∙ v.entries;
          nonnull = Nonnull-set b.bin id next v.nonnull all.1;
          large = v.large;
        } in
        let put =
          put_chunk-IsValid (res + size) ((id + 1) * 8 - size) b1 v1 (omega arith) (omega arith)
            (omega arith) in
        let same : some (res, put_chunk (res + size) ((id + 1) * 8 - size) b1) ≡ some r =
          rw (found, small_fit) at e in
        subst (λ q. (0 < q.0) × IsValid q.1) (some-injective _ _ same) (all.0, put)
  ]

  -- Whatever `get_chunk` answers to a request for a positive number of whole words, well-formed
  -- bins stay well formed.
  pub get_chunk-IsValid : (b : Bins) → IsValid b → size < 2 ^ 64 → IsValid (get_chunk size b).1
  unfolding chop
  get_chunk-IsValid b v h = elim (get_chunk-cases size b) [
    | inl (small, r, e, got) ↦
        rw got (small_fit-IsValid _ (bin_id size) b v (omega arith) (omega arith) e).1
    | inr (inl (small, n, got)) ↦ rw got (large_head-IsValid b.large_bin b v v.large small)
    | inr (inr (inl (big, (c, next), f, got))) ↦
        let large = first_fit-IsLarge size b.large_bin v.large f in
        rw got (chop-IsValid c next b v large.0 large.1 (first_fit-room size b.large_bin f)).1
    | inr (inr (inr (big, n, got))) ↦ rw got v
  ]
