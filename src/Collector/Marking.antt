-- ===== src/Collector/Marking.antt =====
-- `gc_mark_reference` marks what is reached, on fuel for every object that is not marked yet.
use mathlib.Core.Path.{subst}
use jelatine.Common.{
  ℕ, zero, suc, ◌+◌, ◌-◌, ◌*◌, ◌≤◌, ◌<◌, ◌≡◌, ◌≢◌, ◌⊎◌, inl, inr, refl, ap, sym, ◌∙◌, true, false,
  Option, some, List, arith, ◌==◌, if◌then◌else◌, Bool-cases,
}
use jelatine.Header.{is_object, is_marked, set_mark, get_class}
use jelatine.Collector.{Memory, write, Class, object_ref_n, mark_loop, mark_reference}
use jelatine.Collector.Objects.{
  has, unmarked, ref_count, ref_slot, IsHeap, Refers, Reach, here, there, IsMarking, same_object,
  same_class, same_ref_count, same_ref, mark_one-IsMarking, mark_one-is_marked, unmarked_mono,
  unmarked-less,
}
use jelatine.Collector.Marks.{Marks, Marks-refl, Marks-trans, Marks-weaken}

module _ (classes : ℕ → Class) (objs : List ℕ) (m0 : Memory) (heap : IsHeap classes objs m0) where
  -- What a call does for an object that is not marked.
  abbrev pub Marked : ℕ → Memory → Option Memory → Type 0
  Marked r m result =
      (m' : Memory) × (result ≡ some m')
      × (is_marked (m' r) ≡ true)
      × Marks classes objs m0 (λ x. x ≡ r) m m'

  module _ (mark : ℕ → Memory → Option Memory) (limit : ℕ)
      (rec : (r : ℕ) (m : Memory)
        → has objs r ≡ true
        → IsMarking objs m0 m
        → is_marked (m r) ≡ false
        → unmarked objs m < limit
        → Marked r m (mark r m))
      (x : ℕ) (x_in : has objs x ≡ true) where
    -- What the loop does from the reference `i` on.
    abbrev Looped : ℕ → ℕ → Memory → Option Memory → Type 0
    Looped i n m result =
        (m' : Memory) × (result ≡ some m')
        × ((j : ℕ)
            → i ≤ j
            → j < i + n
            → m0 (ref_slot classes m0 x j) ≢ 0
            → is_marked (m' (m0 (ref_slot classes m0 x j))) ≡ true)
        × Marks classes objs m0 (Refers classes m0 x) m m'

    -- One reference: what is marked for it.
    one_ref :
        (i : ℕ) (m : Memory)
        → i < ref_count classes m0 x
        → IsMarking objs m0 m
        → unmarked objs m < limit
        → (m' : Memory) × ((if m (ref_slot classes m0 x i) == 0
              then some m
              else if is_marked (m (m (ref_slot classes m0 x i)))
              then some m
              else mark (m (ref_slot classes m0 x i)) m)
            ≡ some m')
          × (m0 (ref_slot classes m0 x i) ≢ 0
              → is_marked (m' (m0 (ref_slot classes m0 x i))) ≡ true)
          × Marks classes objs m0 (Refers classes m0 x) m m'
    one_ref i m lt same few =
        let slot : ℕ = ref_slot classes m0 x i in
        let read : m slot ≡ m0 slot = same_ref classes objs m0 heap m same x i x_in lt in
        rw read (elim (Bool-cases (m0 slot == 0)) [
          | inl z ↦
              let e : m0 slot ≡ 0 = ground arith in
              rw z (m, refl, λ nz. absurd (nz e), Marks-refl m same)
          | inr n ↦
              let nz : m0 slot ≢ 0 = ground arith in
              elim (Bool-cases (is_marked (m (m0 slot)))) [
                | inl t ↦ rw (n, t) (m, refl, λ h. t, Marks-refl m same)
                | inr f ↦ elim (heap.refs x i x_in lt) [
                  | inl e ↦ absurd (nz e)
                  | inr target ↦
                      let (m', e, marked, marks) = rec (m0 slot) m target same f few in
                      rw (n, f)
                        (m', e, λ h. marked, Marks-weaken (λ y q. (i, lt, sym q, rw q nz)) marks)
                ]
              ]
        ])

    loop-Looped :
        (n i : ℕ) (m : Memory)
        → i + n ≡ ref_count classes m0 x
        → IsMarking objs m0 m
        → unmarked objs m < limit
        → Looped i n m (mark_loop mark n (ref_slot classes m0 x i) m)
    unfolding mark_loop
    loop-Looped zero i m total same few =
        (m, refl, λ j lo hi. absurd (omega arith), Marks-refl m same)
    loop-Looped (suc n) i m total same few =
        let (m1, e1, marked1, marks1) = one_ref i m (omega arith) same few in
        let next : ref_slot classes m0 x i + 8 ≡ ref_slot classes m0 x (i + 1) = omega arith in
        let few1 : unmarked objs m1 < limit = omega (arith, unmarked_mono objs m m1 marks1.more) in
        let (m2, e2, marked2, marks2) = loop-Looped n (i + 1) m1 (omega arith) marks1.same few1 in
        (
          m2,
          rw (e1, next) e2,
          λ j lo hi nz. elim (Bool-cases (i == j)) [
            | inl t ↦
                let same_j : i ≡ j = ground arith in
                rw (← same_j) (marks2.more (m0 (ref_slot classes m0 x i)) (marked1 (rw same_j nz)))
            | inr f ↦ marked2 j (ground arith) (ground arith) nz
          ],
          Marks-trans (λ y k. k) (λ y k. k) marks1 marks2,
        )

  -- The rest of a call for an object that is not marked, once the loop has answered.
  mark_reference-step :
      (fuel r : ℕ) (m : Memory)
      → has objs r ≡ true
      → IsMarking objs m0 m
      → is_marked (m r) ≡ false
      → mark_reference (suc fuel) classes r m
        ≡ mark_loop
            (mark_reference fuel classes)
            (ref_count classes m0 r)
            (ref_slot classes m0 r 0)
            (write m r (set_mark (m r)))
  unfolding mark_reference
  mark_reference-step fuel r m r_in same f =
      let m1 : Memory = write m r (set_mark (m r)) in
      let same1 : IsMarking objs m0 m1 = mark_one-IsMarking classes objs m0 heap m same r r_in in
      let class : get_class (m r) ≡ get_class (m1 r) =
        same_class classes objs m0 heap m same r r_in
        ∙ sym (same_class classes objs m0 heap m1 same1 r r_in) in
      let refs : object_ref_n classes (classes (get_class (m r))) m1 r ≡ ref_count classes m0 r =
        ap (λ c. object_ref_n classes (classes c) m1 r) class
        ∙ same_ref_count classes objs m0 heap m1 same1 r r_in in
      let nz : (r == 0) ≡ false = (let ne = heap.nonnull r r_in in ground arith) in
      let object : is_object (m r) ≡ true = same_object classes objs m0 heap m same r r_in in
      let start : r - 8 * ref_count classes m0 r ≡ ref_slot classes m0 r 0 = omega arith in
      rw (mark_reference, nz, object, f, refs, ← start) refl

  pub mark_reference-Marked :
      (fuel r : ℕ) (m : Memory)
      → has objs r ≡ true
      → IsMarking objs m0 m
      → is_marked (m r) ≡ false
      → unmarked objs m < fuel
      → Marked r m (mark_reference fuel classes r m)
  mark_reference-Marked zero r m r_in same f few = absurd (omega arith)
  mark_reference-Marked (suc fuel) r m r_in same f few =
      let m1 : Memory = write m r (set_mark (m r)) in
      let same1 : IsMarking objs m0 m1 = mark_one-IsMarking classes objs m0 heap m same r r_in in
      let at_r : m1 r ≡ set_mark (m r) = let t : (r == r) ≡ true = ground arith in rw t refl in
      let marked : is_marked (m1 r) ≡ true =
        ap is_marked at_r ∙ mark_one-is_marked classes objs m0 heap m same r r_in in
      let others : (x : ℕ) → r ≢ x → m1 x ≡ m x =
        (λ x ne. let t : (r == x) ≡ false = ground arith in rw t refl) in
      let more1 : (x : ℕ) → is_marked (m x) ≡ true → is_marked (m1 x) ≡ true = (λ x h.
        elim (Bool-cases (r == x)) [
          | inl t ↦ let e : r ≡ x = ground arith in rw (← e) marked
          | inr n ↦ rw (others x (ground arith)) h
        ]) in
      let fewer : unmarked objs m1 < fuel =
        omega (arith, unmarked-less objs m m1 r more1 r_in f marked) in
      let (m2, e2, all, marks) =
        loop-Looped (mark_reference fuel classes) fuel (mark_reference-Marked fuel) r r_in
          (ref_count classes m0 r) 0 m1 (omega arith) same1 fewer in
      (
        m2,
        mark_reference-step fuel r m r_in same f ∙ e2,
        marks.more r marked,
        record {
          more = λ x h. marks.more x (more1 x h);
          same = marks.same;
          closed = λ x y x_in u t k. elim (Bool-cases (r == x)) [
            | inl s ↦
                let e : r ≡ x = ground arith in
                let (i, lt, read, nz) = subst (λ z. Refers classes m0 z y) (sym e) k in
                subst (λ z. is_marked (m2 z) ≡ true) read
                  (all i (omega arith) (omega arith) (rw read nz))
            | inr n ↦ marks.closed x y x_in (rw (others x (ground arith)) u) t k
          ];
          sound = λ x x_in u t. elim (Bool-cases (r == x)) [
            | inl s ↦
                let e : r ≡ x = ground arith in (r, refl, subst (λ z. Reach classes m0 r z) e here)
            | inr n ↦
                let (y, k, reach) = marks.sound x x_in (rw (others x (ground arith)) u) t in
                (r, refl, there k reach)
          ];
        },
      )

-- A call for NULL, or for what is marked, changes nothing.
pub mark_reference-skip :
    (fuel : ℕ) (classes : ℕ → Class) (ref : ℕ) (m : Memory)
    → 0 < fuel
    → (ref ≡ 0) ⊎ (is_marked (m ref) ≡ true)
    → mark_reference fuel classes ref m ≡ some m
unfolding mark_reference
mark_reference-skip zero classes ref m pos h = absurd (omega arith)
mark_reference-skip (suc fuel) classes ref m pos h = elim (Bool-cases (ref == 0)) [
  | inl z ↦ rw (mark_reference, z) refl
  | inr n ↦ elim (Bool-cases (is_object (m ref))) [
    | inr f ↦ rw (mark_reference, n, f) refl
    | inl t ↦ elim h [
      | inl e ↦ absurd (ground arith)
      | inr marked ↦ rw (mark_reference, n, t, marked) refl
    ]
  ]
]
