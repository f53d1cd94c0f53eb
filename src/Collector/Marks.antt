-- ===== src/Collector/Marks.antt =====
-- What a part of the marking does, relative to the memory in which the marking has begun.
use jelatine.Common.{ℕ, ◌≡◌, inl, inr, sym, ◌∙◌, true, false, List, Bool-cases}
use jelatine.Header.{is_marked}
use jelatine.Collector.{Memory, Class}
use jelatine.Collector.Objects.{has, Refers, Reach, IsMarking}

-- From `m` to `m'`, objects that are reached from those in `from` have been marked, each with all that
-- it refers to.
pub record Marks (classes : ℕ → Class) (objs : List ℕ) (m0 : Memory) (from : ℕ → Type 0)
    (m m' : Memory) : Type 0 where
  pub more : (x : ℕ) → is_marked (m x) ≡ true → is_marked (m' x) ≡ true
  pub same : IsMarking objs m0 m'
  pub closed :
      (x y : ℕ)
      → has objs x ≡ true
      → is_marked (m x) ≡ false
      → is_marked (m' x) ≡ true
      → Refers classes m0 x y
      → is_marked (m' y) ≡ true
  pub sound :
      (x : ℕ)
      → has objs x ≡ true
      → is_marked (m x) ≡ false
      → is_marked (m' x) ≡ true
      → (r : ℕ) × from r × Reach classes m0 r x

module _ {classes : ℕ → Class} {objs : List ℕ} {m0 : Memory} where
  pub Marks-refl :
      {from : ℕ → Type 0} (m : Memory) → IsMarking objs m0 m → Marks classes objs m0 from m m
  Marks-refl m same = record {
    more = λ x h. h;
    same = same;
    closed = λ x y h f t k. absurd (let b = sym f ∙ t in cc);
    sound = λ x h f t. absurd (let b = sym f ∙ t in cc);
  }

  -- One part after another.
  pub Marks-trans :
      {a b from : ℕ → Type 0} {m m1 m2 : Memory}
      → ((x : ℕ) → a x → from x)
      → ((x : ℕ) → b x → from x)
      → Marks classes objs m0 a m m1
      → Marks classes objs m0 b m1 m2
      → Marks classes objs m0 from m m2
  Marks-trans {m1 = m1} fa fb p q = record {
    more = λ x h. q.more x (p.more x h);
    same = q.same;
    closed = λ x y h f t k. elim (Bool-cases (is_marked (m1 x))) [
      | inl u ↦ q.more y (p.closed x y h f u k)
      | inr u ↦ q.closed x y h u t k
    ];
    sound = λ x h f t. elim (Bool-cases (is_marked (m1 x))) [
      | inl u ↦ let (r, ar, reach) = p.sound x h f u in (r, fa r ar, reach)
      | inr u ↦ let (r, br, reach) = q.sound x h u t in (r, fb r br, reach)
    ];
  }

  pub Marks-weaken :
      {a from : ℕ → Type 0} {m m' : Memory}
      → ((x : ℕ) → a x → from x)
      → Marks classes objs m0 a m m'
      → Marks classes objs m0 from m m'
  Marks-weaken fa p = record {
    more = p.more;
    same = p.same;
    closed = p.closed;
    sound = λ x h f t. let (r, ar, reach) = p.sound x h f t in (r, fa r ar, reach);
  }
