-- ===== src/Collector/Sweeping/Extents.antt =====
-- Behind the sweep every byte of the managed part is in one free chunk or in a marked object.
use mathlib.Core.Path.{subst}
use jelatine.Common.{
  ℕ, ◌+◌, ◌-◌, ◌*◌, ◌/◌, ◌%◌, ◌^◌, ◌≤◌, ◌<◌, ◌≡◌, inl, inr, refl, ap, sym, true, false, ◌&&◌, some,
  List, arith, ltb, if◌then◌else◌, Bool-cases,
}
use jelatine.Util.{size_ceil, size_max}
use jelatine.Util.Rounding.{rounding_bounds}
use jelatine.Header.{is_object, is_marked}
use jelatine.Collector.Objects.{has}
use jelatine.Memory.Chunks.{put_chunk}
use jelatine.Memory.Chunks.Extent.{holds, covered}
use jelatine.Memory.Heap.{Heap, grow}
use jelatine.Memory.Heap.Layout.{IsValid, grow-IsValid}
use jelatine.Collector.{Memory, Class}
use jelatine.Collector.Sweeping.{Sweep, minus, sweep_loop, finish_sweep, sweep}
use jelatine.Collector.Sweeping.Layout.{IsLaid, live}
use jelatine.Collector.Sweeping.Steps.{Swept}
use jelatine.Collector.Sweeping.Loop.{loop-Swept}

holds_split :
    (x a b c : ℕ) → a ≤ b → b ≤ c → holds x a (c - a) ≡ holds x a (b - a) + holds x b (c - b)
holds_split x a b c lo hi = ground arith

-- By nothing, the heap grows by its last free space.
grow-zero :
    (from : ℕ) (h : Heap)
    → IsValid h
    → grow from 0 h ≡ record h { bins = put_chunk from (h.end - from) h.bins }
unfolding grow
grow-zero from h v =
    let e : (h.end + 0) % 2 ^ 64 ≡ h.end =
      (let a = v.end_perm in let b = v.perm_top in let c = v.top in omega arith) in
    let f : ltb h.perm h.end ≡ false = (let a = v.end_perm in ground arith) in
    rw (e, f, ← v.size) refl

-- What the sweep asks of `gc_grow`, where it asks for anything.
abbrev request : ℕ → ℕ → ℕ → ℕ
request size in_use reclaimed =
    if ltb reclaimed (in_use / 2)
    then size_ceil (size_max size (in_use / 2 - reclaimed)) 8
    else size

request-bounds :
    (size in_use reclaimed : ℕ)
    → size % 8 ≡ 0
    → size < 2 ^ 62
    → in_use < 2 ^ 62
    → (request size in_use reclaimed % 8 ≡ 0) × (request size in_use reclaimed < 2 ^ 63)
unfolding size_max
request-bounds size in_use reclaimed words small used =
    elim (Bool-cases (ltb reclaimed (in_use / 2))) [
      | inr f ↦ rw f (words, omega arith)
      | inl t ↦
          let n : ℕ = if ltb (in_use / 2 - reclaimed) size then size else in_use / 2 - reclaimed in
          let bound : n < 2 ^ 62 = ground arith in
          let (floor, (lo, hi, m), div) = rounding_bounds n 8 (omega arith) (omega arith) in
          rw t (m, omega arith)
    ]

-- The end of the sweep is a growth, maybe by nothing.
finish_sweep-grow :
    (size : ℕ) (s : Sweep)
    → IsValid s.heap
    → s.end ≤ s.heap.end
    → size % 8 ≡ 0
    → size < 2 ^ 62
    → s.in_use < 2 ^ 62
    → (z : ℕ) × (z % 8 ≡ 0) × (z < 2 ^ 63) × (finish_sweep size s ≡ grow s.end z s.heap)
unfolding finish_sweep
finish_sweep-grow size s v le words small used =
    let last : minus s.heap.end s.end ≡ s.heap.end - s.end =
      (let a = v.end_perm in let b = v.perm_top in let c = v.top in omega arith) in
    let reclaimed : ℕ = s.reclaimed + (s.heap.end - s.end) in
    elim (Bool-cases (
      ltb size (if ltb s.max_size (s.heap.end - s.end) then s.heap.end - s.end else s.max_size)
      && ltb (s.in_use / 2) reclaimed)) [
        | inl t ↦
            (0, refl, omega arith, rw (finish_sweep, last, t) (sym (grow-zero s.end s.heap v)))
        | inr f ↦
            let (m, lt) = request-bounds size s.in_use reclaimed words small used in
            (request size s.in_use reclaimed, m, lt, rw (finish_sweep, last, f) refl)
      ]

module _ (classes : ℕ → Class) (m : Memory) (h : Heap) (objs : List ℕ) (v : IsValid h)
    (free : (b : ℕ) → covered b h.bins ≡ 0) where
  abbrev initial : Sweep
  initial = record {
    memory = m;
    heap = h;
    scan = h.start;
    end = h.start;
    reclaimed = 0;
    in_use = 0;
    max_size = 0;
  }

  covered_so_far :
      (s : Sweep)
      → Swept classes objs initial s
      → (b : ℕ) → covered b s.heap.bins + live classes m b objs ≡ holds b h.start (s.end - h.start)
  covered_so_far s w b = omega (arith, w.covers b, free b)

  swept-IsValid : (s : Sweep) → Swept classes objs initial s → IsValid s.heap
  swept-IsValid s w = subst IsValid (sym w.same) (record {
    nonnull = v.nonnull;
    start_end = v.start_end;
    end_perm = v.end_perm;
    perm_top = v.perm_top;
    top = v.top;
    end_words = v.end_words;
    perm_words = v.perm_words;
    size = v.size;
    bits = rw w.bits v.bits;
    bins = w.bins;
    inside = λ b. (let lo = w.forward in let hi = w.inside in ground (arith, covered_so_far s w b));
  })

  -- What the whole sweep leaves behind.
  abbrev pub Result : ℕ → ℕ → Type 0
  Result fuel size =
      (m' : Memory) × (h' : Heap) × (sweep fuel classes size m h ≡ some (m', h'))
      × IsValid h'
      × (h.end ≤ h'.end)
      × ((b : ℕ) → covered b h'.bins + live classes m b objs ≡ holds b h.start (h'.end - h.start))
      × ((x : ℕ)
          → has objs x ≡ true
          → m x < 2 ^ 64
          → is_object (m x) ≡ true
          → is_marked (m' x) ≡ false)

  finished :
      (size fuel : ℕ) (s : Sweep)
      → sweep_loop fuel classes initial ≡ some s
      → Swept classes objs initial s
      → size % 8 ≡ 0
      → size < 2 ^ 62
      → h.start + h.max_size < 2 ^ 62
      → Result fuel size
  unfolding sweep
  finished size fuel s e w words small low =
      let a = v.end_perm in
      let b = v.perm_top in
      let v' = swept-IsValid s w in
      let end : s.heap.end ≡ h.end = ap Heap.end w.same in
      let start : s.heap.start ≡ h.start = ap Heap.start w.same in
      let perm : s.heap.perm ≡ h.perm = ap Heap.perm w.same in
      let lo : h.start ≤ s.end = w.forward in
      let hi : s.end ≤ h.end = w.inside in
      let used : s.in_use ≤ 0 + (s.end - h.start) = w.used in
      let (z, z8, lt, grown) =
        finish_sweep-grow size s v' (omega arith) words small (omega arith) in
      let (v'', longer, cover) =
        grow-IsValid s.end z s.heap v' (omega arith) (omega arith) (let q = w.words in rw start q)
          z8 (omega arith) (λ x a b. ground (arith, covered_so_far s w x)) in
      let bigger : h.end ≤ (grow s.end z s.heap).end =
        (let a = v'.end_perm in elim longer [ inl l ↦ omega arith | inr l ↦ omega arith ]) in
      (
        s.memory,
        grow s.end z s.heap,
        rw (sweep, e, grown) refl,
        v'',
        bigger,
        λ b.
            rw (holds_split b h.start s.end (grow s.end z s.heap).end lo (omega arith))
              (omega (arith, cover b, covered_so_far s w b)),
        w.clear,
      )

  -- For a heap of less than 2 ^ 62 bytes with a valid layout and no free chunk, whose managed part is laid
  -- out as objects with unused words between them, and a request of less than 2 ^ 62 bytes in whole words:
  -- on fuel for the words of the managed part, `gc_sweep` ends with a valid layout of at least the size
  -- before. Each byte of the managed part is then in exactly one free chunk, or in a marked object
  -- and in no free chunk, and no Java object, with a header below 2 ^ 64, is marked any more.
  pub sweep-covered :
      (size fuel : ℕ)
      → IsLaid classes m h.start h.start objs h.end
      → size % 8 ≡ 0
      → size < 2 ^ 62
      → h.start + h.max_size < 2 ^ 62
      → h.end - h.start + 8 ≤ 8 * fuel
      → Result fuel size
  sweep-covered size fuel laid words small low enough =
      let bounds : h.end < 2 ^ 62 = (let a = v.end_perm in let b = v.perm_top in omega arith) in
      let (s, e, w) =
        loop-Swept classes fuel h.start objs initial laid (omega arith, omega arith, omega arith)
          v.nonnull (omega arith) v.bins enough in
      finished size fuel s e w words small low
