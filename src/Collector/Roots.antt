-- ===== src/Collector/Roots.antt =====
-- `tm_mark` marks what the threads reach, and nothing else.
use jelatine.Common.{
  ℕ, ◌%◌, ◌≤◌, ◌<◌, ◌≡◌, ◌⊎◌, ◌↔◌, inl, inr, refl, ap, sym, ◌∙◌, Bool, true, false, not, ◌||◌,
  Option, some, List, [], ◌∷◌, arith, ltb, ◌==◌, bit_and, Bool-cases,
}
use jelatine.Common.Bits.{bit_and-mask}
use jelatine.Header.{is_marked}
use jelatine.Memory.Heap.{Heap, bitmap_get}
use jelatine.Collector.{
  Memory, Class, ◌>>=◌, mark_reference, mark_potential, Thread, mark_words, mark_thread, tm_mark,
}
use jelatine.Collector.Objects.{
  has, unmarked, IsHeap, Refers, Reach, here, there, IsMarking, unmarked_mono,
}
use jelatine.Collector.Marks.{Marks, Marks-refl, Marks-trans, Marks-weaken}
use jelatine.Collector.Marking.{mark_reference-Marked, mark_reference-skip}

-- The bitmap has the bits of the objects, which are words of the managed part of the heap.
pub record IsMapped (objs : List ℕ) (h : Heap) : Type 0 where
  pub bits : (x : ℕ) → x % 8 ≡ 0 → h.start ≤ x → x < h.end → bitmap_get x h ≡ has objs x
  pub words : (x : ℕ) → has objs x ≡ true → (x % 8 ≡ 0) × (h.start ≤ x) × (x < h.end)

-- The words that a thread keeps.
abbrev pub keeps : Thread → ℕ → Bool
keeps thread x =
    (thread.obj == x) || (has thread.roots x || (has thread.stack x || (thread.exception == x)))

unfoldable pub is_root : List Thread → ℕ → Bool
is_root [] x = false
is_root (thread ∷ queue) x = let rest = is_root queue x in keeps thread x || rest

-- The object of the thread and its pending exception are objects, or NULL.
abbrev pub IsReference : List ℕ → ℕ → Type 0
IsReference objs r = (r ≡ 0) ⊎ (has objs r ≡ true)

unfoldable pub AreThreads : List ℕ → List Thread → Type 0
AreThreads objs [] = Unit {0}
AreThreads objs (thread ∷ queue) =
    (IsReference objs thread.obj × IsReference objs thread.exception) × AreThreads objs queue

module _ (classes : ℕ → Class) (objs : List ℕ) (m0 : Memory) (heap : IsHeap classes objs m0)
    (fuel : ℕ) where
  -- A part of the marking that marks the objects in `p` and what they reach.
  abbrev Done : (ℕ → Bool) → Memory → Option Memory → Type 0
  Done p m result =
      (m' : Memory) × (result ≡ some m')
      × ((r : ℕ) → p r ≡ true → has objs r ≡ true → is_marked (m' r) ≡ true)
      × Marks classes objs m0 (λ r. (p r ≡ true) × (has objs r ≡ true)) m m'

  skip_all :
      (p : ℕ → Bool) (m : Memory)
      → IsMarking objs m0 m
      → ((r : ℕ) → p r ≡ true → has objs r ≡ true → is_marked (m r) ≡ true)
      → Done p m (some m)
  skip_all p m same all = (m, refl, all, Marks-refl m same)

  in_turn :
      (p q : ℕ → Bool) (m : Memory) (result : Option Memory) (next : Memory → Option Memory)
      → unmarked objs m < fuel
      → Done p m result
      → ((m1 : Memory) → IsMarking objs m0 m1 → unmarked objs m1 < fuel → Done q m1 (next m1))
      → Done (λ r. p r || q r) m (result >>= next)
  in_turn p q m result next few first second =
      let (m1, e1, all1, marks1) = first in
      let (m2, e2, all2, marks2) =
        second m1 marks1.same (omega (arith, unmarked_mono objs m m1 marks1.more)) in
      (
        m2,
        rw e1 e2,
        λ r h r_in. elim (Bool-cases (p r)) [
          | inl t ↦ marks2.more r (all1 r t r_in)
          | inr f ↦ all2 r (rw f at h) r_in
        ],
        Marks-trans (λ r (h, r_in). (ground arith, r_in)) (λ r (h, r_in). (ground arith, r_in))
            marks1 marks2,
      )

  reference-Done :
      (ref : ℕ) (m : Memory)
      → IsReference objs ref
      → IsMarking objs m0 m
      → unmarked objs m < fuel
      → Done (λ r. ref == r) m (mark_reference fuel classes ref m)
  reference-Done ref m valid same few = elim (Bool-cases (is_marked (m ref))) [
    | inl t ↦ (
      m,
      mark_reference-skip fuel classes ref m (omega arith) (inr t),
      λ r e r_in. let same_ref : ref ≡ r = ground arith in rw (← same_ref) t,
      Marks-refl m same,
    )
    | inr f ↦ elim valid [
      | inl z ↦ (
        m,
        mark_reference-skip fuel classes ref m (omega arith) (inl z),
        λ r e r_in. absurd (heap.nonnull r r_in (ground arith)),
        Marks-refl m same,
      )
      | inr ref_in ↦
          let (m', e, marked, marks) =
            mark_reference-Marked classes objs m0 heap fuel ref m ref_in same f few in
          (
            m',
            e,
            λ r q r_in. let same_ref : ref ≡ r = ground arith in rw (← same_ref) marked,
            Marks-weaken (λ x q. rw q (ground arith, ref_in)) marks,
          )
    ]
  ]

  potential-skip :
      (h : Heap)
      → IsMapped objs h
      → (ref : ℕ) (m : Memory) → has objs ref ≡ false
      → mark_potential fuel classes h ref m ≡ some m
  unfolding mark_potential
  potential-skip h mapped ref m out =
      let low : bit_and ref 7 ≡ ref % 8 = bit_and-mask 3 ref in
      elim (Bool-cases (bit_and ref 7 == 0)) [
        | inr f ↦ rw (mark_potential, f) refl
        | inl a ↦ elim (Bool-cases (ltb ref h.start || not (ltb ref h.end))) [
          | inl outside ↦ rw (mark_potential, a, outside) refl
          | inr inside ↦
              let bit : bitmap_get ref h ≡ false =
                mapped.bits ref (ground arith) (ground arith) (ground arith) ∙ out in
              rw (mark_potential, a, inside, bit) refl
        ]
      ]

  potential-Done :
      (h : Heap)
      → IsMapped objs h
      → (ref : ℕ) (m : Memory) → IsMarking objs m0 m
      → unmarked objs m < fuel
      → Done (λ r. ref == r) m (mark_potential fuel classes h ref m)
  unfolding mark_potential
  potential-Done h mapped ref m same few =
      let low : bit_and ref 7 ≡ ref % 8 = bit_and-mask 3 ref in
      elim (Bool-cases (has objs ref)) [
        | inl t ↦
            let (aligned, lo, hi) = mapped.words ref t in
            let a : (bit_and ref 7 == 0) ≡ true = ground arith in
            let b : ltb ref h.start ≡ false = ground arith in
            let c : ltb ref h.end ≡ true = ground arith in
            rw (mark_potential, a, b, c, mapped.bits ref aligned lo hi, t)
              (reference-Done ref m (inr t) same few)
        | inr f ↦ (
          m,
          potential-skip h mapped ref m f,
          λ r e r_in.
              let same_ref : ref ≡ r = ground arith in
              absurd (let b = sym f ∙ ap (has objs) same_ref ∙ r_in in cc),
          Marks-refl m same,
        )
      ]

  words-Done :
      (h : Heap)
      → IsMapped objs h
      → (words : List ℕ) (m : Memory) → IsMarking objs m0 m
      → unmarked objs m < fuel
      → Done (has words) m (mark_words fuel classes h words m)
  unfolding mark_words has
  words-Done h mapped [] m same few = skip_all (λ r. false) m same (λ r x. absurd (let b = x in cc))
  words-Done h mapped (ref ∷ words) m same few =
      in_turn (λ r. ref == r) (has words) m (mark_potential fuel classes h ref m)
        (mark_words fuel classes h words) few (potential-Done h mapped ref m same few)
        (words-Done h mapped words)

  thread-Done :
      (h : Heap)
      → IsMapped objs h
      → (thread : Thread) (m : Memory) → IsReference objs thread.obj
      → IsReference objs thread.exception
      → IsMarking objs m0 m
      → unmarked objs m < fuel
      → Done (keeps thread) m (mark_thread fuel classes h thread m)
  unfolding mark_thread
  thread-Done h mapped thread m obj exception same few =
      in_turn _ _ m _ _ few (reference-Done thread.obj m obj same few) (λ m1 same1 few1.
        in_turn _ _ m1 _ _ few1 (words-Done h mapped thread.roots m1 same1 few1) (λ m2 same2 few2.
          in_turn _ _ m2 _ _ few2 (words-Done h mapped thread.stack m2 same2 few2)
            (λ m3 same3 few3. reference-Done thread.exception m3 exception same3 few3)))

  queue-Done :
      (h : Heap)
      → IsMapped objs h
      → (queue : List Thread) (m : Memory) → AreThreads objs queue
      → IsMarking objs m0 m
      → unmarked objs m < fuel
      → Done (is_root queue) m (tm_mark fuel classes h queue m)
  unfolding tm_mark is_root AreThreads
  queue-Done h mapped [] m valid same few =
      skip_all (λ r. false) m same (λ r x. absurd (let b = x in cc))
  queue-Done h mapped (thread ∷ queue) m valid same few =
      in_turn (keeps thread) (is_root queue) m (mark_thread fuel classes h thread m)
        (tm_mark fuel classes h queue) few
        (thread-Done h mapped thread m valid.0.0 valid.0.1 same few)
        (λ m1 same1 few1. queue-Done h mapped queue m1 valid.1 same1 few1)

  -- What is reached from a marked object is marked.
  reached :
      (m : Memory)
      → ((x y : ℕ)
          → has objs x ≡ true
          → is_marked (m0 x) ≡ false
          → is_marked (m x) ≡ true
          → Refers classes m0 x y
          → is_marked (m y) ≡ true)
      → ((x : ℕ) → has objs x ≡ true → is_marked (m0 x) ≡ false)
      → (r x : ℕ) → Reach classes m0 r x
      → has objs r ≡ true
      → is_marked (m r) ≡ true
      → is_marked (m x) ≡ true
  reached m closed clear r x here r_in t = t
  reached m closed clear r x (there {y} refers reach) r_in t =
      let (i, lt, read, nz) = refers in
      let y_in : has objs y ≡ true = elim (heap.refs r i r_in lt) [
        | inl z ↦ absurd (nz (sym read ∙ z))
        | inr target ↦ ap (has objs) (sym read) ∙ target
      ] in
      reached m closed clear y x reach y_in (closed r y r_in (clear r r_in) t refers)

  -- For the objects of a heap, none of which is marked and whose headers are in other words than references
  -- and the lengths of arrays, threads whose fields refer to objects, and a bitmap that has the objects'
  -- bits: on more fuel than there are objects, `tm_mark` ends. It marks an
  -- object exactly when it is reached by references from a root, an object that a field, a temporary root
  -- or a word on the stack of a thread has the address of; no other bit of the memory changes.
  pub tm_mark-reachable :
      (h : Heap)
      → IsMapped objs h
      → (queue : List Thread) → AreThreads objs queue
      → ((x : ℕ) → has objs x ≡ true → is_marked (m0 x) ≡ false)
      → unmarked objs m0 < fuel
      → (m : Memory) × (tm_mark fuel classes h queue m0 ≡ some m)
        × IsMarking objs m0 m
        × ((x : ℕ)
            → has objs x ≡ true
            → (is_marked (m x) ≡ true)
              ↔ ((r : ℕ) × (is_root queue r ≡ true) × (has objs r ≡ true) × Reach classes m0 r x))
  tm_mark-reachable h mapped queue valid clear few =
      let (m, e, all, marks) = queue-Done h mapped queue m0 valid (λ x. inl refl) few in
      (
        m,
        e,
        marks.same,
        λ x x_in. (
          λ t.
              let (r, (root, r_in), reach) = marks.sound x x_in (clear x x_in) t in
              (r, root, r_in, reach),
          λ (r, root, r_in, reach). reached m marks.closed clear r x reach r_in (all r root r_in),
        ),
      )
