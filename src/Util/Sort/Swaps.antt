-- ===== src/Util/Sort/Swaps.antt =====
-- The exchanges of `sort_asc_uint16_ptrs` of src/jelatine/util.c.
use jelatine.Common.{
  ℕ, ◌≤◌, ◌<◌, ◌≡◌, ◌≢◌, ap, ◌∙◌, inl, inr, List, ◌==◌, if◌then◌else◌, length, get_or, set,
  length-set, get_or-set_self, get_or-set_ne, Bool-cases, arith,
}
use jelatine.Util.Sort.{key, swap}

module _ {ℓ} {A : Type ℓ} (d : ℕ × A) where
  pub length-swap : (a : List (ℕ × A)) (x y : ℕ) → length (swap d a x y) ≡ length a
  unfolding swap
  length-swap a x y =
      length-set (set a x (get_or a y d)) y (get_or a x d) ∙ length-set a x (get_or a y d)

  get_or-set :
      (a : List (ℕ × A)) (x q : ℕ) (v : ℕ × A)
      → x < length a
      → get_or (set a x v) q d ≡ (if x == q then v else get_or a q d)
  get_or-set a x q v l = elim (Bool-cases (x == q)) [
    | inl y ↦ let e : x ≡ q = ground arith in rw (y, ← e) (get_or-set_self a x v d l)
    | inr f ↦ let n : x ≢ q = ground arith in rw f (get_or-set_ne a x q v d n)
  ]

  pub key-swap :
      (a : List (ℕ × A)) (x y q : ℕ)
      → x < length a
      → y < length a
      → key d (swap d a x y) q
        ≡ (if y == q then key d a x else if x == q then key d a y else key d a q)
  unfolding swap
  key-swap a x y q lx ly =
      let vx = get_or a x d in
      let vy = get_or a y d in
      let l : y < length (set a x vy) = omega (arith, length-set a x vy) in
      let e = ap (λ (p : ℕ × A). p.0) (get_or-set (set a x vy) y q vx l) in
      let f = ap (λ (p : ℕ × A). p.0) (get_or-set a x q vy lx) in
      elim (Bool-cases (y == q)) [
        | inl s ↦ rw s (rw s at e)
        | inr n ↦ elim (Bool-cases (x == q)) [
          | inl s ↦ rw (n, s) ((rw n at e) ∙ (rw s at f))
          | inr m ↦ rw (n, m) ((rw n at e) ∙ (rw m at f))
        ]
      ]

  -- Between `i` and `k` the places are exchanged, and the others are as before.
  abbrev pub Moved : (ℕ → ℕ) → (ℕ → ℕ) → ℕ → ℕ → Type 0
  Moved f g i k =
      ((q : ℕ) → q < i → g q ≡ f q)
      × ((q : ℕ) → k < q → g q ≡ f q)
      × ((q : ℕ) → i ≤ q → q ≤ k → (r : ℕ) × (i ≤ r) × (r ≤ k) × (g q ≡ f r))

  pub Moved-trans : (f g h : ℕ → ℕ) (i k : ℕ) → Moved f g i k → Moved g h i k → Moved f h i k
  Moved-trans f g h i k (a, b, c) (a', b', c') = (
    λ q l. a' q l ∙ a q l,
    λ q l. b' q l ∙ b q l,
    λ q l m.
        let (r, lr, mr, e) = c' q l m in let (s, ls, ms, e') = c r lr mr in (s, ls, ms, e ∙ e'),
  )

  pub Moved-swap :
      (a : List (ℕ × A)) (x y i k : ℕ)
      → i ≤ x
      → x ≤ k
      → i ≤ y
      → y ≤ k
      → k < length a
      → Moved (key d a) (key d (swap d a x y)) i k
  Moved-swap a x y i k ix xk iy yk l =
      let at_ = λ (q : ℕ). key-swap a x y q (omega arith) (omega arith) in
      (
        λ q m. let e = at_ q in ground arith,
        λ q m. let e = at_ q in ground arith,
        λ q m n.
            let e = at_ q in
            elim (Bool-cases (y == q)) [
              | inl s ↦ (x, ix, xk, rw s at e)
              | inr s ↦ elim (Bool-cases (x == q)) [
                | inl t ↦ (y, iy, yk, rw (s, t) at e)
                | inr t ↦ (q, m, n, rw (s, t) at e)
              ]
            ],
      )
