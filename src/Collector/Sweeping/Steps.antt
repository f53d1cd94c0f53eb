-- ===== src/Collector/Sweeping/Steps.antt =====
-- What the sweep does to the bins, and the parts of one round.
use jelatine.Common.{
  ℕ, ◌+◌, ◌-◌, ◌*◌, ◌%◌, ◌^◌, ◌≤◌, ◌<◌, ◌≡◌, ◌≢◌, inl, inr, refl, ap, ◌∙◌, bit_and, true, false,
  some, List, [], ◌∷◌, arith, ltb, leb, if◌then◌else◌, length, Bool-cases,
}
use jelatine.Header.{is_object, is_marked, clear_mark}
use jelatine.Header.Parts.{set_mark-clear_mark}
use jelatine.Collector.Objects.{has}
use jelatine.Memory.Chunks.{Bins, put_chunk}
use jelatine.Memory.Chunks.Sum.{Weight, IsAdditive, IsValid, sum-put_chunk}
use jelatine.Memory.Chunks.Extent.{holds, holds-IsAdditive, covered}
use jelatine.Collector.{Memory, write, Class}
use jelatine.Collector.Sweeping.{nref_size, ref_n, Sweep, minus, reclaim, sweep_marked, sweep_loop}
use jelatine.Collector.Sweeping.Layout.{IsLaid, live}

-- What the loop does from `s` to `s'`: the bytes between the ends of the last objects that are in no marked
-- object come to the bins.
pub record Swept (classes : ℕ → Class) (objs : List ℕ) (s s' : Sweep) : Type 0 where
  pub covers :
      (b : ℕ)
      → covered b s'.heap.bins + live classes s.memory b objs
        ≡ covered b s.heap.bins + holds b s.end (s'.end - s.end)
  pub bins : IsValid s'.heap.bins
  pub forward : s.end ≤ s'.end
  pub inside : s'.end ≤ s.heap.end
  pub words : (s'.end - s.end) % 8 ≡ 0
  pub same : s'.heap ≡ record s.heap { bitmap = s'.heap.bitmap; bins = s'.heap.bins }
  pub bits : length s'.heap.bitmap ≡ length s.heap.bitmap
  pub used : s'.in_use ≤ s.in_use + (s'.end - s.end)
  pub behind : (x : ℕ) → x < s.scan → s'.memory x ≡ s.memory x
  -- No Java object is marked any more.
  pub clear :
      (x : ℕ)
      → has objs x ≡ true
      → s.memory x < 2 ^ 64
      → is_object (s.memory x) ≡ true
      → is_marked (s'.memory x) ≡ false

pub cleared : (h : ℕ) → h < 2 ^ 64 → is_marked (clear_mark h) ≡ false
cleared h lt = (set_mark-clear_mark h lt).1.0

minus-eq : (a b : ℕ) → b ≤ a → a < 2 ^ 64 → minus a b ≡ a - b
minus-eq a b le lt = omega arith

reclaim-eq :
    (start : ℕ) (s : Sweep)
    → s.end ≤ start
    → start < 2 ^ 64
    → (start - s.end) % 8 ≡ 0
    → reclaim start s ≡ record s {
      heap = record s.heap { bins = put_chunk s.end (start - s.end) s.heap.bins };
      reclaimed = s.reclaimed + (start - s.end);
      max_size = if ltb s.max_size (start - s.end) then start - s.end else s.max_size;
    }
unfolding reclaim put_chunk
reclaim-eq start s le lt words = elim (Bool-cases (leb 8 (start - s.end))) [
  | inl t ↦ rw (minus-eq start s.end le lt, t) refl
  | inr f ↦
      let z : start - s.end ≡ 0 = ground arith in
      let none_more : ltb s.max_size 0 ≡ false = ground arith in
      let same : s.reclaimed + 0 ≡ s.reclaimed = omega arith in
      rw (minus-eq start s.end le lt, z, none_more, same) refl
]

pub covered-put_chunk :
    (start size : ℕ) (b : Bins)
    → IsValid b
    → size % 8 ≡ 0
    → (x : ℕ) → covered x (put_chunk start size b) ≡ holds x start size + covered x b
unfolding covered
covered-put_chunk start size b v words x =
    sum-put_chunk (holds x) (holds-IsAdditive x) start size b v.entries words

pub join_three :
    (w : Weight)
    → IsAdditive w
    → (a s b t c u : ℕ) → a + s ≡ b
    → b + t ≡ c
    → w a (s + (t + u)) ≡ w a s + (w b t + w c u)
join_three w add a s b t c u e f = rw (add.of_join a s (t + u), e, add.of_join b t u, f) refl

module _ (classes : ℕ → Class) where
  -- The loop on this fuel, from the word `s.scan`, with the objects whose headers are still to come.
  abbrev pub Sweeps : ℕ → Type 0
  Sweeps fuel =
      (from : ℕ) (objs : List ℕ) (s : Sweep)
      → IsLaid classes s.memory from s.scan objs s.heap.end
      → (s.end ≤ from) × (from ≤ s.scan) × ((s.scan - s.end) % 8 ≡ 0)
      → 0 < s.end
      → s.heap.end < 2 ^ 64
      → IsValid s.heap.bins
      → s.heap.end - s.scan + 8 ≤ 8 * fuel
      → (s' : Sweep) × (sweep_loop fuel classes s ≡ some s') × Swept classes objs s s'

  pub stop-Swept :
      (from : ℕ) (objs : List ℕ) (s : Sweep)
      → IsLaid classes s.memory from s.scan objs s.heap.end
      → (s.end ≤ from) × (from ≤ s.scan)
      → IsValid s.heap.bins
      → s.heap.end ≤ s.scan
      → Swept classes objs s s
  unfolding IsLaid live has
  stop-Swept from [] s laid place v done = record {
    covers = λ b.
        let z : s.end - s.end ≡ 0 = omega arith in
        rw z (omega (arith, (holds-IsAdditive b).of_empty s.end));
    bins = v;
    forward = omega arith;
    inside = omega arith;
    words = omega arith;
    same = refl;
    bits = refl;
    used = omega arith;
    behind = λ x lt. refl;
    clear = λ x h word o. absurd (let b = h in cc);
  }
  stop-Swept from (x ∷ objs) s (place1, zeros, header, fits, rest) place v done =
      absurd (omega arith)

  pub skip_word :
      (m : Memory) (from at : ℕ) (objs : List ℕ) (end : ℕ)
      → IsLaid classes m from at objs end
      → at < end
      → bit_and (m at) 3 ≡ 0
      → IsLaid classes m from (at + 8) objs end
  unfolding IsLaid
  skip_word m from at [] end (le, words, zeros) lt low = (
    omega arith,
    omega arith,
    λ i h.
        let e : at + 8 + 8 * i ≡ at + 8 * (i + 1) = omega arith in
        rw e (zeros (i + 1) (omega arith)),
  )
  skip_word m from at (x ∷ objs) end ((back, le, words), zeros, header, fits, rest) lt low =
      let ne : x ≢ at = (λ e. header (ap (λ a. bit_and (m a) 3) e ∙ low)) in
      (
        (back, omega arith, omega arith),
        λ i h.
            let e : at + 8 + 8 * i ≡ at + 8 * (i + 1) = omega arith in
            rw e (zeros (i + 1) (omega arith)),
        header,
        fits,
        rest,
      )

  -- A word that is no free word is the header of the first object.
  pub first_header :
      (m : Memory) (from at : ℕ) (objs : List ℕ) (end : ℕ)
      → IsLaid classes m from at objs end
      → at < end
      → bit_and (m at) 3 ≢ 0
      → (rest : List ℕ) × (objs ≡ at ∷ rest)
        × (from + 8 * ref_n classes m at ≤ at)
        × (at + (8 + nref_size classes m at) ≤ end)
        × IsLaid classes m
            (at + (8 + nref_size classes m at))
            (at + (8 + nref_size classes m at))
            rest
            end
  unfolding IsLaid
  first_header m from at [] end (le, words, zeros) lt nz =
      let e : at + 8 * 0 ≡ at = omega arith in absurd (nz (rw e at (zeros 0 (omega arith))))
  first_header m from at (x ∷ objs) end ((back, le, words), zeros, header, fits, rest) lt nz =
      elim (Bool-cases (ltb at x)) [
        | inl t ↦
            let e : at + 8 * 0 ≡ at = omega arith in absurd (nz (rw e at (zeros 0 (ground arith))))
        | inr f ↦
            let same : x ≡ at = ground arith in
            (objs, ap (λ y. y ∷ objs) same, rw same at back, rw same at fits, rw same at rest)
      ]

  pub sweep_marked-eq :
      (s : Sweep)
      → s.end + 8 * ref_n classes s.memory s.scan ≤ s.scan
      → (s.scan - s.end) % 8 ≡ 0
      → s.scan < 2 ^ 64
      → let refs = ref_n classes s.memory s.scan in
        let gap = s.scan - 8 * refs - s.end in
        let behind = s.scan + (8 + nref_size classes s.memory s.scan) in
        sweep_marked classes s ≡ record s {
          memory =
              if is_object (s.memory s.scan)
              then write s.memory s.scan (clear_mark (s.memory s.scan))
              else s.memory;
          heap = record s.heap { bins = put_chunk s.end gap s.heap.bins };
          scan = behind;
          end = behind;
          reclaimed = s.reclaimed + gap;
          in_use = s.in_use + (refs * 8 + 8 + nref_size classes s.memory s.scan);
          max_size = if ltb s.max_size gap then gap else s.max_size;
        }
  unfolding sweep_marked
  sweep_marked-eq s le words lt =
      let refs : ℕ = ref_n classes s.memory s.scan in
      let start : minus s.scan (refs * 8) ≡ s.scan - 8 * refs = omega arith in
      rw
        (
          sweep_marked,
          start,
          reclaim-eq (s.scan - 8 * refs) s (omega arith) (omega arith) (omega arith),
        )
        refl
