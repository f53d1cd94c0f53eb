-- ===== src/Collector/Sweeping/Layout.antt =====
-- The layout of the heap that the sweep relies on, which it keeps for what it has not scanned yet.
use jelatine.Common.{
  ℕ, ◌+◌, ◌-◌, ◌*◌, ◌%◌, ◌≤◌, ◌<◌, ◌≡◌, ◌≢◌, refl, bit_and, false, List, [], ◌∷◌, arith, ◌==◌,
  if◌then◌else◌,
}
use jelatine.Util.{size_ceil}
use jelatine.Header.{is_marked}
use jelatine.Memory.Chunks.Extent.{holds}
use jelatine.Collector.{Memory, write, Class}
use jelatine.Collector.Sweeping.{array_get_nref_size, nref_size, ref_n}

abbrev pub HasNoHeader : Memory → ℕ → ℕ → Type 0
HasNoHeader m a b = (i : ℕ) → a + 8 * i < b → bit_and (m (a + 8 * i)) 3 ≡ 0

-- The part of the heap from the word `at` to `end`, where the objects have their headers at the addresses
-- of the list. The references of the first may reach back to `from`, where the object before it ends.
unfoldable pub IsLaid : (ℕ → Class) → Memory → ℕ → ℕ → List ℕ → ℕ → Type 0
IsLaid classes m from start [] end =
    (start ≤ end) × ((end - start) % 8 ≡ 0) × HasNoHeader m start end
IsLaid classes m from start (x ∷ objs) end =
    ((from + 8 * ref_n classes m x ≤ x) × (start ≤ x) × ((x - start) % 8 ≡ 0))
    × HasNoHeader m start x
    × (bit_and (m x) 3 ≢ 0)
    × (x + (8 + nref_size classes m x) ≤ end)
    × IsLaid classes m (x + (8 + nref_size classes m x)) (x + (8 + nref_size classes m x)) objs end

-- Whether the byte `b` is in a marked object, with its references and its header, as a number.
unfoldable pub live : (ℕ → Class) → Memory → ℕ → List ℕ → ℕ
live classes m b [] = 0
live classes m b (x ∷ objs) =
    let rest = live classes m b objs in
    (if is_marked (m x)
      then holds b (x - 8 * ref_n classes m x) (8 * ref_n classes m x + (8 + nref_size classes m x))
      else 0)
    + rest

pub nref_size-words : (classes : ℕ → Class) (m : Memory) (x : ℕ) → nref_size classes m x % 8 ≡ 0
unfolding nref_size size_ceil
nref_size-words classes m x = omega arith

module _ (classes : ℕ → Class) (m m' : Memory) (x : ℕ) (header : m' x ≡ m x)
    (length : m' (x + 8) ≡ m (x + 8)) where
  nref_size_congr : nref_size classes m' x ≡ nref_size classes m x
  unfolding nref_size array_get_nref_size
  nref_size_congr = rw (header, length) refl

  ref_n_congr : ref_n classes m' x ≡ ref_n classes m x
  unfolding ref_n
  ref_n_congr = rw (header, length) refl

-- A change of a word that has been scanned.
module _ (classes : ℕ → Class) (m : Memory) (a v : ℕ) where
  behind : (x : ℕ) → a < x → write m a v x ≡ m x
  behind x lt = let f : (a == x) ≡ false = ground arith in rw f refl

  no_header_behind :
      (start end : ℕ) → a < start → HasNoHeader m start end → HasNoHeader (write m a v) start end
  no_header_behind start end lt zeros = λ i h. rw (behind (start + 8 * i) (omega arith)) (zeros i h)

  pub unscanned :
      (objs : List ℕ) (from start end : ℕ)
      → a < start
      → IsLaid classes m from start objs end
      → IsLaid classes (write m a v) from start objs end
        × ((b : ℕ) → live classes (write m a v) b objs ≡ live classes m b objs)
  unfolding IsLaid live
  unscanned [] from start end lt (le, words, zeros) =
      ((le, words, no_header_behind start end lt zeros), λ b. refl)
  unscanned (x ∷ objs) from start end lt (place, zeros, header, fits, rest) =
      let later : a < x = omega arith in
      let e : write m a v x ≡ m x = behind x later in
      let n = nref_size_congr classes m (write m a v) x e (behind (x + 8) (omega arith)) in
      let r = ref_n_congr classes m (write m a v) x e (behind (x + 8) (omega arith)) in
      let (rest', same) =
        unscanned objs (x + (8 + nref_size classes m x)) (x + (8 + nref_size classes m x)) end
          (omega arith) rest in
      (
        rw (n, r, e) (place, no_header_behind start x lt zeros, header, fits, rest'),
        λ b. rw (n, r, e, same b) refl,
      )
