-- ===== src/Util/Sort/Rounds.antt =====
-- One round of `sort_asc_uint16_ptrs` of src/jelatine/util.c between the places `i` and `k`.
use jelatine.Common.{
  ℕ, zero, suc, ◌+◌, ◌-◌, ◌≤◌, ◌<◌, ◌≡◌, sym, ap, ◌∙◌, inl, inr, false, List, ltb, ◌==◌,
  if◌then◌else◌, length, Bool-cases, ==-refl, arith,
}
use jelatine.Util.Sort.{key, swap, scan, exchange}
use jelatine.Util.Sort.Swaps.{length-swap, key-swap, Moved, Moved-trans, Moved-swap}

module _ {ℓ} {A : Type ℓ} (d : ℕ × A) where
  -- What the `for` loop has found among the places from `i` to before `j`.
  abbrev pub Extremes : List (ℕ × A) → ℕ → ℕ → ℕ × ℕ → Type 0
  Extremes a i j (min, max) =
      (i ≤ min)
      × (min < j)
      × (i ≤ max)
      × (max < j)
      × ((q : ℕ) → i ≤ q → q < j → (key d a min ≤ key d a q) × (key d a q ≤ key d a max))

  Extremes-step :
      (a : List (ℕ × A)) (i j min max : ℕ)
      → Extremes a i j (min, max)
      → Extremes a i (j + 1) (
        if ltb (key d a j) (key d a min) then j else min,
        if ltb (key d a max) (key d a j) then j else max,
      )
  Extremes-step a i j min max (im, mj, iM, Mj, bounds) =
      let self = bounds min im mj in
      let self' = bounds max iM Mj in
      (
        ground arith,
        ground arith,
        ground arith,
        ground arith,
        λ q l m. elim (Bool-cases (q == j)) [
          | inl y ↦ let e : q ≡ j = ground arith in rw e (ground arith, ground arith)
          | inr n ↦
              let b = bounds q l (ground arith) in
              let b0 = b.0 in let b1 = b.1 in (ground arith, ground arith)
        ],
      )

  scan-Extremes :
      (a : List (ℕ × A)) (n i j min max e : ℕ)
      → j + n ≡ e
      → Extremes a i j (min, max)
      → Extremes a i e (scan d a n j min max)
  unfolding scan
  scan-Extremes a zero i j min max e end x = let same : j ≡ e = omega arith in rw (← same) x
  scan-Extremes a (suc n) i j min max e end x =
      scan-Extremes a n i (j + 1) _ _ e (omega arith) (Extremes-step a i j min max x)

  -- Behind a round a least entry is at `i` and a greatest one at `k`.
  abbrev pub Ends : (ℕ → ℕ) → ℕ → ℕ → Type 0
  Ends g i k = (q : ℕ) → i ≤ q → q ≤ k → (g i ≤ g q) × (g q ≤ g k)

  -- The greatest entry is at `m`, and goes to `k`.
  swap-Ends :
      (a : List (ℕ × A)) (i k m hi : ℕ)
      → i < k
      → k < length a
      → i ≤ m
      → m ≤ k
      → key d a m ≡ hi
      → ((q : ℕ) → i ≤ q → q ≤ k → (key d a i ≤ key d a q) × (key d a q ≤ hi))
      → Ends (key d (swap d a m k)) i k
  swap-Ends a i k m hi ik l im mk top bounds q iq qk =
      let last = key-swap d a m k k (omega arith) l in
      let first = key-swap d a m k i (omega arith) l in
      let (r, ir, rk, e) = (Moved-swap d a m k i k im mk (omega arith) (omega arith) l).2 q iq qk in
      let b = bounds r ir rk in
      let c = bounds k (omega arith) (omega arith) in
      let b0 = b.0 in
      let b1 = b.1 in
      let c0 = c.0 in
      let c1 = c.1 in
      let at_k : key d (swap d a m k) k ≡ hi = ground arith in
      let n : (k == i) ≡ false = ground arith in
      let first' : key d (swap d a m k) i ≡ (if m == i then key d a k else key d a i) =
        rw n at first in
      let at_i : key d (swap d a m k) i ≤ key d a i = elim (Bool-cases (m == i)) [
        | inl y ↦
            let same : m ≡ i = ground arith in
            let top' : key d a i ≡ hi = rw same at top in
            let e' : key d (swap d a m k) i ≡ key d a k = rw y at first' in omega arith
        | inr f ↦ let e' : key d (swap d a m k) i ≡ key d a i = rw f at first' in omega arith
      ] in
      (omega arith, omega arith)

  -- Both exchanges, the second from `m`, which has a greatest entry.
  both-Ends :
      (a : List (ℕ × A)) (i k min max m : ℕ)
      → i < k
      → k < length a
      → Extremes a i (k + 1) (min, max)
      → i ≤ m
      → m ≤ k
      → key d (swap d a min i) m ≡ key d a max
      → Moved d (key d a) (key d (swap d (swap d a min i) m k)) i k
        × Ends (key d (swap d (swap d a min i) m k)) i k
  both-Ends a i k min max m ik l (im, mk, iM, Mk, bounds) lo hi top =
      let first = swap d a min i in
      let l' : k < length first = omega (arith, length-swap d a min i) in
      let one = Moved-swap d a min i i k im (omega arith) (omega arith) (omega arith) l in
      let two = Moved-swap d first m k i k lo hi (omega arith) (omega arith) l' in
      let at_i = key-swap d a min i i (omega arith) (omega arith) in
      let least : key d first i ≡ key d a min = ground arith in
      (
        Moved-trans d (key d a) (key d first) (key d (swap d first m k)) i k one two,
        swap-Ends first i k m (key d a max) ik l' lo hi top (λ q iq qk.
            let (r, ir, rk, e) = one.2 q iq qk in
            let b = bounds r ir (omega arith) in
            let b0 = b.0 in let b1 = b.1 in (omega arith, omega arith)),
      )

  -- The first exchange takes a greatest entry from `i` to `min`, and leaves it elsewhere.
  first-top :
      (a : List (ℕ × A)) (i k min max : ℕ)
      → i < k
      → k < length a
      → Extremes a i (k + 1) (min, max)
      → key d (swap d a min i) (if max == i then min else max) ≡ key d a max
  first-top a i k min max ik l (im, mk, iM, Mk, bounds) =
      let b = bounds i (omega arith) (omega arith) in
      let b0 = b.0 in
      let b1 = b.1 in
      elim (Bool-cases (max == i)) [
        | inl y ↦
            let same : max ≡ i = ground arith in
            let e = key-swap d a min i min (omega arith) (omega arith) in
            rw y (elim (Bool-cases (i == min)) [
              | inl z ↦
                  let e' : key d (swap d a min i) min ≡ key d a min = rw z at e in
                  let s : i ≡ min = ground arith in e' ∙ ap (key d a) (sym s ∙ sym same)
              | inr z ↦
                  let n = ==-refl min in
                  let e' : key d (swap d a min i) min ≡ key d a i = rw (z, n) at e in
                  e' ∙ ap (key d a) (sym same)
            ])
        | inr f ↦
            let e = key-swap d a min i max (omega arith) (omega arith) in
            let z : (i == max) ≡ false = ground arith in
            rw f (elim (Bool-cases (min == max)) [
              | inl y ↦
                  let s : min ≡ max = ground arith in
                  let e' : key d (swap d a min i) max ≡ key d a i = rw (z, y) at e in
                  let same = ap (key d a) s in omega arith
              | inr n ↦ rw (z, n) at e
            ])
      ]

  exchange-Ends :
      (a : List (ℕ × A)) (i k : ℕ) (found : ℕ × ℕ)
      → i < k
      → k < length a
      → Extremes a i (k + 1) found
      → Moved d (key d a) (key d (exchange d a i k found)) i k
        × Ends (key d (exchange d a i k found)) i k
  unfolding exchange
  exchange-Ends a i k (min, max) ik l x =
      let top = first-top a i k min max ik l x in
      elim (Bool-cases (max == i)) [
        | inl y ↦
            rw (exchange, y)
              (both-Ends a i k min max min ik l x x.0 (let b = x.1 in omega arith) (rw y at top))
        | inr f ↦
            rw (exchange, f)
              (both-Ends a i k min max max ik l x x.2 (let b = x.3 in omega arith) (rw f at top))
      ]

  -- What the `for` loop finds in one round.
  pub round-Extremes :
      (a : List (ℕ × A)) (i k : ℕ) → i < k → Extremes a i (k + 1) (scan d a (k - i) (i + 1) i i)
  round-Extremes a i k ik = scan-Extremes a (k - i) i (i + 1) i i (k + 1) (omega arith) (
    omega arith,
    omega arith,
    omega arith,
    omega arith,
    λ q m n. let e : q ≡ i = omega arith in rw e (omega arith, omega arith),
  )

  pub round-Ends :
      (a : List (ℕ × A)) (i k : ℕ)
      → i < k
      → k < length a
      → Moved d (key d a) (key d (exchange d a i k (scan d a (k - i) (i + 1) i i))) i k
        × Ends (key d (exchange d a i k (scan d a (k - i) (i + 1) i i))) i k
  round-Ends a i k ik l =
      exchange-Ends a i k (scan d a (k - i) (i + 1) i i) ik l (round-Extremes a i k ik)

  pub length-exchange :
      (a : List (ℕ × A)) (i k : ℕ) (found : ℕ × ℕ) → length (exchange d a i k found) ≡ length a
  unfolding exchange
  length-exchange a i k (min, max) = elim (Bool-cases (max == i)) [
    | inl y ↦ rw (exchange, y) (length-swap d (swap d a min i) min k ∙ length-swap d a min i)
    | inr f ↦ rw (exchange, f) (length-swap d (swap d a min i) max k ∙ length-swap d a min i)
  ]
