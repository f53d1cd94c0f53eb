-- ===== src/Collector/Objects.antt =====
-- The objects of the heap and the references between them, which marking does not change.
use jelatine.Common.{
  ℕ, ◌+◌, ◌-◌, ◌*◌, ◌^◌, ◌≤◌, ◌<◌, ◌≡◌, ◌≢◌, ◌⊎◌, inl, inr, refl, ap, sym, ◌∙◌, Bool, true, false,
  ◌||◌, List, [], ◌∷◌, arith, ◌==◌, if◌then◌else◌, Bool-cases,
}
use jelatine.Header.{is_object, get_class, is_marked, set_mark}
use jelatine.Header.Parts.{set_mark_keeps}
use jelatine.Collector.{Memory, write, Class, class_is_array, object_ref_n}

unfoldable pub has : List ℕ → ℕ → Bool
has [] x = false
has (o ∷ objs) x = let rest = has objs x in (o == x) || rest

-- How many of the objects are not marked.
unfoldable pub unmarked : List ℕ → Memory → ℕ
unmarked [] m = 0
unmarked (o ∷ objs) m = let rest = unmarked objs m in (if is_marked (m o) then 0 else 1) + rest

abbrev pub ref_count : (ℕ → Class) → Memory → ℕ → ℕ
ref_count classes m x = object_ref_n classes (classes (get_class (m x))) m x

-- The address of a reference of an object.
abbrev pub ref_slot : (ℕ → Class) → Memory → ℕ → ℕ → ℕ
ref_slot classes m x i = x - 8 * ref_count classes m x + 8 * i

-- The objects `objs` of the memory. Headers are in other words than references and the lengths of arrays,
-- and references are to objects.
pub record IsHeap (classes : ℕ → Class) (objs : List ℕ) (m : Memory) : Type 0 where
  pub object : (x : ℕ) → has objs x ≡ true → is_object (m x) ≡ true
  pub word : (x : ℕ) → has objs x ≡ true → m x < 2 ^ 64
  pub nonnull : (x : ℕ) → has objs x ≡ true → x ≢ 0
  pub refs :
      (x i : ℕ)
      → has objs x ≡ true
      → i < ref_count classes m x
      → (m (ref_slot classes m x i) ≡ 0) ⊎ (has objs (m (ref_slot classes m x i)) ≡ true)
  pub apart :
      (x i : ℕ)
      → has objs x ≡ true
      → i < ref_count classes m x
      → has objs (ref_slot classes m x i) ≡ false
  pub lengths :
      (x : ℕ)
      → has objs x ≡ true
      → class_is_array (classes (get_class (m x))) ≡ true
      → has objs (x + 8) ≡ false

-- An object refers to another.
abbrev pub Refers : (ℕ → Class) → Memory → ℕ → ℕ → Type 0
Refers classes m x y =
    (i : ℕ) × (i < ref_count classes m x) × (m (ref_slot classes m x i) ≡ y) × (y ≢ 0)

-- A chain of references from an object to another.
pub data Reach (classes : ℕ → Class) (m : Memory) : ℕ → ℕ → Type 0 where
  here : {x : ℕ} → Reach classes m x x
  there : {x y z : ℕ} → Refers classes m x y → Reach classes m y z → Reach classes m x z

-- A memory that differs in the mark bits of objects alone.
abbrev pub IsMarking : List ℕ → Memory → Memory → Type 0
IsMarking objs m m' = (x : ℕ) → (m' x ≡ m x) ⊎ ((has objs x ≡ true) × (m' x ≡ set_mark (m x)))

module _ (classes : ℕ → Class) (objs : List ℕ) (m : Memory) (heap : IsHeap classes objs m)
    (m' : Memory) (same : IsMarking objs m m') where
  other_word : (x : ℕ) → has objs x ≡ false → m' x ≡ m x
  other_word x h = elim (same x) [ inl e ↦ e | inr (t, e) ↦ absurd (let b = sym h ∙ t in cc) ]

  pub same_class : (x : ℕ) → has objs x ≡ true → get_class (m' x) ≡ get_class (m x)
  same_class x h = elim (same x) [
    | inl e ↦ ap get_class e
    | inr (t, e) ↦ ap get_class e ∙ (set_mark_keeps (m x) (heap.word x h)).2
  ]

  pub same_object : (x : ℕ) → has objs x ≡ true → is_object (m' x) ≡ true
  same_object x h = elim (same x) [
    | inl e ↦ ap is_object e ∙ heap.object x h
    | inr (t, e) ↦ ap is_object e ∙ (set_mark_keeps (m x) (heap.word x h)).1 ∙ heap.object x h
  ]

  pub same_word : (x : ℕ) → has objs x ≡ true → m' x < 2 ^ 64
  same_word x h = elim (same x) [
    | inl e ↦ rw e (heap.word x h)
    | inr (t, e) ↦ rw e (set_mark_keeps (m x) (heap.word x h)).4
  ]

  pub same_ref_count : (x : ℕ) → has objs x ≡ true → ref_count classes m' x ≡ ref_count classes m x
  same_ref_count x h = elim (Bool-cases (class_is_array (classes (get_class (m x))))) [
    | inl y ↦ rw (same_class x h, other_word (x + 8) (heap.lengths x h y)) refl
    | inr n ↦ rw (same_class x h, n) refl
  ]

  pub same_ref :
      (x i : ℕ)
      → has objs x ≡ true
      → i < ref_count classes m x
      → m' (ref_slot classes m x i) ≡ m (ref_slot classes m x i)
  same_ref x i h lt = other_word (ref_slot classes m x i) (heap.apart x i h lt)

  -- The object `x` is marked.
  module _ (x : ℕ) (h : has objs x ≡ true) where
    pub mark_one-IsMarking : IsMarking objs m (write m' x (set_mark (m' x)))
    mark_one-IsMarking y = elim (Bool-cases (x == y)) [
      | inr f ↦ rw f (same y)
      | inl t ↦
          let e : x ≡ y = ground arith in
          rw (t, ← e)
            (elim (same x) [
              | inl s ↦ inr (h, ap set_mark s)
              | inr (u, s) ↦ inr (h, ap set_mark s ∙ (set_mark_keeps (m x) (heap.word x h)).3)
            ])
    ]

    pub mark_one-is_marked : is_marked (set_mark (m' x)) ≡ true
    mark_one-is_marked = (set_mark_keeps (m' x) (same_word x h)).0

-- Marking marks no object less.
pub unmarked_mono :
    (objs : List ℕ) (m m' : Memory)
    → ((x : ℕ) → is_marked (m x) ≡ true → is_marked (m' x) ≡ true)
    → unmarked objs m' ≤ unmarked objs m
unfolding unmarked
unmarked_mono [] m m' more = omega arith
unmarked_mono (o ∷ objs) m m' more = elim (Bool-cases (is_marked (m o))) [
  | inl t ↦ rw (t, more o t) (omega (arith, unmarked_mono objs m m' more))
  | inr f ↦ rw f (ground (arith, unmarked_mono objs m m' more))
]

-- Marking an object that is not marked leaves fewer.
pub unmarked-less :
    (objs : List ℕ) (m m' : Memory) (x : ℕ)
    → ((y : ℕ) → is_marked (m y) ≡ true → is_marked (m' y) ≡ true)
    → has objs x ≡ true
    → is_marked (m x) ≡ false
    → is_marked (m' x) ≡ true
    → unmarked objs m' < unmarked objs m
unfolding unmarked has
unmarked-less [] m m' x more h f t = absurd (let b = h in cc)
unmarked-less (o ∷ objs) m m' x more h f t = elim (Bool-cases (o == x)) [
  | inl e ↦
      let same : o ≡ x = ground arith in
      rw (same, f, t) (omega (arith, unmarked_mono objs m m' more))
  | inr n ↦
      let h' : has objs x ≡ true = rw n at h in
      let less = unmarked-less objs m m' x more h' f t in
      elim (Bool-cases (is_marked (m o))) [
        | inl u ↦ rw (u, more o u) (omega (arith, less))
        | inr u ↦ rw u (ground arith)
      ]
]
