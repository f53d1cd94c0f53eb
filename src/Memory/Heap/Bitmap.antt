-- ===== src/Memory/Heap/Bitmap.antt =====
-- The bitmap of object headers: reads see the last write to the same word, and no other.
use jelatine.Common.{
  ℕ, zero, suc, ◌+◌, ◌-◌, ◌*◌, ◌/◌, ◌%◌, ◌^◌, ◌≤◌, ◌<◌, ◌≡◌, refl, Bool, true, false, ◌&&◌, not,
  bit_and, bit_or, ltb, ◌==◌, if◌then◌else◌, get_or, set, get_or-set_self, get_or-set_ne, length,
  All, arith, Bool-cases, inl, inr, ◌∙◌, List, [], ◌∷◌,
}
use jelatine.Common.Bits.{bit_and-mask}
use jelatine.Memory.Heap.{Heap, bit_offset, bitmap_set, bitmap_clear, bitmap_get}

-- A table over `n` values, by evaluation.
table : (ℕ → Bool) → ℕ → Bool
table p zero = true
table p (suc n) = p n && table p n

table-lt : (p : ℕ → Bool) (n i : ℕ) → table p n ≡ true → i < n → p i ≡ true
unfolding table
table-lt p zero i e h = absurd (omega arith)
table-lt p (suc n) i e h = ground (arith, table-lt p n i)

abbrev bit_at : ℕ → ℕ → Bool
bit_at b j = bit_and (b / 2 ^ j) 1 == 1

abbrev same : Bool → Bool → Bool
same x y = if x then y else not y

-- What setting and what clearing the bit `k` of the byte `b` does to the bit `j`.
set_entry : ℕ → ℕ → ℕ → Bool
set_entry b k j =
    same (bit_at (bit_or b (2 ^ k)) j) (if k == j then true else bit_at b j)
    && ltb (bit_or b (2 ^ k)) 256

clear_entry : ℕ → ℕ → ℕ → Bool
clear_entry b k j =
    same (bit_at (bit_and b (255 - 2 ^ k)) j) (if k == j then false else bit_at b j)
    && ltb (bit_and b (255 - 2 ^ k)) 256

-- The number `b * 64 + k * 8 + j` stands for a byte and two positions in it.
abbrev entry : (ℕ → ℕ → ℕ → Bool) → ℕ → Bool
entry p n = p (n / 64) (n / 8 % 8) (n % 8)

entry_lookup :
    (p : ℕ → ℕ → ℕ → Bool) (b k j : ℕ)
    → table (entry p) 16384 ≡ true
    → b < 256
    → k < 8
    → j < 8
    → p b k j ≡ true
entry_lookup p b k j e hb hk hj =
    let n : ℕ = b * 64 + k * 8 + j in
    let eb : n / 64 ≡ b = omega arith in
    let ek : n / 8 % 8 ≡ k = omega arith in
    let ej : n % 8 ≡ j = omega arith in
    let found : p (n / 64) (n / 8 % 8) (n % 8) ≡ true =
      table-lt (entry p) 16384 n e (omega arith) in
    rw (eb, ek, ej) at found

set_bit :
    (b k j : ℕ)
    → b < 256
    → k < 8
    → j < 8
    → (bit_at (bit_or b (2 ^ k)) j ≡ (if k == j then true else bit_at b j))
      × (bit_or b (2 ^ k) < 256)
set_bit b k j hb hk hj =
    let e = entry_lookup set_entry b k j (unfold table set_entry in refl) hb hk hj in
    unfold set_entry in ground (arith, e)

clear_bit :
    (b k j : ℕ)
    → b < 256
    → k < 8
    → j < 8
    → (bit_at (bit_and b (255 - 2 ^ k)) j ≡ (if k == j then false else bit_at b j))
      × (bit_and b (255 - 2 ^ k) < 256)
clear_bit b k j hb hk hj =
    let e = entry_lookup clear_entry b k j (unfold table clear_entry in refl) hb hk hj in
    unfold clear_entry in ground (arith, e)

abbrev pub IsByte : ℕ → Type 0
IsByte b = b < 256

get_or-IsByte : (bs : List ℕ) (i : ℕ) → All IsByte bs → get_or bs i 0 < 256
get_or-IsByte [] i h = omega arith
get_or-IsByte (b ∷ bs) zero h = h.0
get_or-IsByte (b ∷ bs) (suc i) h = get_or-IsByte bs i h.1

-- A word of the heap that the bitmap has a bit for.
abbrev pub HasBit : Heap → ℕ → Type 0
HasBit h p = (h.start ≤ p) × ((p - h.start) % 8 ≡ 0) × ((p - h.start) / 64 < length h.bitmap)

module _ (h : Heap) (p q : ℕ) (hb : All IsByte h.bitmap) (hp : HasBit h p) (hq : HasBit h q) where
  -- What is read at `q` after the byte of `p` has been changed to `v`.
  changed :
      (v : ℕ) (x : Bool)
      → ((j : ℕ)
          → j < 8
          → bit_at v j ≡ (
              if bit_offset p h % 8 == j
              then x
              else bit_at (get_or h.bitmap (bit_offset p h / 8) 0) j))
      → bit_at
          (get_or (set h.bitmap (bit_offset p h / 8) v) (bit_offset q h / 8) 0)
          (bit_offset q h % 8)
        ≡ (if p == q
            then x
            else bit_at (get_or h.bitmap (bit_offset q h / 8) 0) (bit_offset q h % 8))
  changed v x e = elim (Bool-cases (bit_offset p h / 8 == bit_offset q h / 8)) [
    | inl eq ↦
        let i : bit_offset q h / 8 ≡ bit_offset p h / 8 = ground arith in
        let t = e (bit_offset q h % 8) (omega arith) in
        rw (i, get_or-set_self h.bitmap (bit_offset p h / 8) v 0 (omega arith))
          (t ∙ elim (Bool-cases (p == q)) [ inl pq ↦ ground arith | inr pq ↦ ground arith ])
    | inr ne ↦
        let i : (p == q) ≡ false = ground arith in
        rw (i, get_or-set_ne h.bitmap (bit_offset p h / 8) (bit_offset q h / 8) v 0 (ground arith))
  ]

  -- For words that the bitmap, a list of bytes, has a bit for: after `bitmap_set` the bit of
  -- the word is set, and every other bit is as before.
  bitmap_get-bitmap_set : bitmap_get q (bitmap_set p h) ≡ (if p == q then true else bitmap_get q h)
  unfolding bitmap_get bitmap_set
  bitmap_get-bitmap_set =
      rw (bit_and-mask 3 (bit_offset p h), bit_and-mask 3 (bit_offset q h))
        (changed (bit_or (get_or h.bitmap (bit_offset p h / 8) 0) (2 ^ (bit_offset p h % 8))) true
          λ j hj.
            (set_bit (get_or h.bitmap (bit_offset p h / 8) 0) (bit_offset p h % 8) j
              (get_or-IsByte h.bitmap (bit_offset p h / 8) hb) (omega arith) hj).0)

  -- For words that the bitmap, a list of bytes, has a bit for: after `bitmap_clear` the bit of
  -- the word is clear, and every other bit is as before.
  bitmap_get-bitmap_clear :
      bitmap_get q (bitmap_clear p h) ≡ (if p == q then false else bitmap_get q h)
  unfolding bitmap_get bitmap_clear
  bitmap_get-bitmap_clear =
      rw (bit_and-mask 3 (bit_offset p h), bit_and-mask 3 (bit_offset q h))
        (changed (bit_and (get_or h.bitmap (bit_offset p h / 8) 0) (255 - 2 ^ (bit_offset p h % 8)))
          false
          λ j hj.
            (clear_bit (get_or h.bitmap (bit_offset p h / 8) 0) (bit_offset p h % 8) j
              (get_or-IsByte h.bitmap (bit_offset p h / 8) hb) (omega arith) hj).0)

  -- For words that the bitmap, a list of bytes, has a bit for: after `bitmap_set` the bit of the word is
  -- set, after `bitmap_clear` it is clear, and every other bit is as before.
  pub bitmap_get_changed :
      (bitmap_get q (bitmap_set p h) ≡ (if p == q then true else bitmap_get q h))
      × (bitmap_get q (bitmap_clear p h) ≡ (if p == q then false else bitmap_get q h))
  bitmap_get_changed = (bitmap_get-bitmap_set, bitmap_get-bitmap_clear)
