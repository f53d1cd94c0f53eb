-- ===== src/Util/Sort/Sorted.antt =====
-- `sort_asc_uint16_ptrs` of src/jelatine/util.c sorts.
use mathlib.Core.List.{Perm}
use mathlib.Core.List.Perm
use jelatine.Common.{
  ℕ, zero, suc, ◌+◌, ◌-◌, ◌%◌, ◌^◌, ◌≤◌, ◌<◌, ◌≡◌, ◌⊎◌, refl, ◌∙◌, inl, inr, List, [], ◌∷◌, ltb,
  ◌==◌, length, get_or, set, length-set, get_or-set_self, get_or-set_ne, ◌≢◌, Bool-cases, arith,
}
use jelatine.Common.Outcome.{ok}
use jelatine.Util.Sort.{key, swap, scan, exchange, sort_loop, sort_asc_uint16_ptrs}
use jelatine.Util.Sort.Swaps.{Moved, length-swap}
use jelatine.Util.Sort.Rounds.{Ends, length-exchange, round-Extremes, round-Ends}

-- The entries in front of `i`, and those behind `k`, are in order with all others.
abbrev Outside : (ℕ → ℕ) → ℕ → ℕ → ℕ → Type 0
Outside f i k n = (p q : ℕ) → p ≤ q → q < n → (p < i) ⊎ (k < q) → f p ≤ f q

module _ {ℓ} {A : Type ℓ} (d : ℕ × A) where
  -- Where an entry comes from, seen from one in front of the window, and from one behind it.
  image :
      (f g : ℕ → ℕ) (i k n q : ℕ)
      → k < n
      → q < n
      → Moved d f g i k
      → (r : ℕ) × (g q ≡ f r)
        × (r < n)
        × (((q < i) ⊎ (k < q)) × (r ≡ q) ⊎ ((i ≤ q) × (q ≤ k) × (i ≤ r) × (r ≤ k)))
  image f g i k n q kn qn (low, high, mid) = elim (Bool-cases (ltb q i)) [
    | inl y ↦ let l : q < i = ground arith in (q, low q l, qn, inl (inl l, refl))
    | inr x ↦ elim (Bool-cases (ltb k q)) [
      | inl y ↦ let l : k < q = ground arith in (q, high q l, qn, inl (inr l, refl))
      | inr z ↦
          let a : i ≤ q = ground arith in
          let b : q ≤ k = ground arith in
          let (r, ir, rk, e) = mid q a b in (r, e, omega arith, inr (a, b, ir, rk))
    ]
  ]

  round-Outside :
      (f g : ℕ → ℕ) (i k n : ℕ)
      → i < k
      → k < n
      → Outside f i k n
      → Moved d f g i k
      → Ends d g i k
      → Outside g (i + 1) (k - 1) n
  round-Outside f g i k n ik kn out moved ends p q pq qn side =
      let (r, e, rn, from_p) = image f g i k n p kn (omega arith) moved in
      let (s, e', sn, from_q) = image f g i k n q kn qn moved in
      elim (Bool-cases (ltb p i)) [
        | inl y ↦ let b = out r s (ground arith) sn (inl (ground arith)) in omega arith
        | inr x ↦ elim (Bool-cases (ltb k q)) [
          | inl y ↦ let b = out r s (ground arith) sn (inr (ground arith)) in omega arith
          | inr z ↦ elim (Bool-cases (p == i)) [
            | inl y ↦
                let same : p ≡ i = ground arith in
                rw same ((ends q (ground arith) (ground arith)).0)
            | inr n' ↦
                let same : q ≡ k = ground arith in
                rw same ((ends p (ground arith) (ground arith)).1)
          ]
        ]
      ]

  set-Perm :
      (a : List (ℕ × A)) (i : ℕ) (v : ℕ × A)
      → i < length a
      → Perm (get_or a i d ∷ set a i v) (v ∷ a)
  set-Perm [] i v l = absurd (omega arith)
  set-Perm (x ∷ a) zero v l = Perm.swap v x a
  set-Perm (x ∷ a) (suc i) v l =
      Perm.trans (Perm.swap x _ _)
        (Perm.trans (Perm.cons x (set-Perm a i v (omega arith))) (Perm.swap v x a))

  get_or-set_any :
      (a : List (ℕ × A)) (x y : ℕ)
      → y < length a
      → get_or (set a x (get_or a y d)) y d ≡ get_or a y d
  get_or-set_any a x y l = elim (Bool-cases (x == y)) [
    | inl s ↦ let e : x ≡ y = ground arith in rw e (get_or-set_self a y (get_or a y d) d l)
    | inr n ↦ let e : x ≢ y = ground arith in get_or-set_ne a x y (get_or a y d) d e
  ]

  swap-Perm : (a : List (ℕ × A)) (x y : ℕ) → x < length a → y < length a → Perm (swap d a x y) a
  unfolding swap
  swap-Perm a x y lx ly =
      let vx = get_or a x d in
      let vy = get_or a y d in
      let first = set-Perm a x vy lx in
      let second = set-Perm (set a x vy) y vx (omega (arith, length-set a x vy)) in
      let second' : Perm (vy ∷ set (set a x vy) y vx) (vx ∷ set a x vy) =
        rw (get_or-set_any a x y ly) at second in
      Perm.cons_inv (Perm.trans second' first)

  exchange-Perm :
      (a : List (ℕ × A)) (i k : ℕ) (found : ℕ × ℕ)
      → i < length a
      → k < length a
      → found.0 < length a
      → found.1 < length a
      → Perm (exchange d a i k found) a
  unfolding exchange
  exchange-Perm a i k (min, max) li lk lm lM =
      let n = length-swap d a min i in
      let one = swap-Perm a min i lm li in
      elim (Bool-cases (max == i)) [
        | inl y ↦
            rw (exchange, y)
              (Perm.trans (swap-Perm (swap d a min i) min k (omega arith) (omega arith)) one)
        | inr f ↦
            rw (exchange, f)
              (Perm.trans (swap-Perm (swap d a min i) max k (omega arith) (omega arith)) one)
      ]

  -- The entries are in ascending order.
  abbrev pub IsAscending : List (ℕ × A) → Type 0
  IsAscending a = (p q : ℕ) → p ≤ q → q < length a → key d a p ≤ key d a q

  sort_loop-IsAscending :
      (fuel : ℕ) (a : List (ℕ × A)) (i k : ℕ)
      → k - i < fuel
      → k < length a
      → Outside (key d a) i k (length a)
      → (a' : List (ℕ × A)) × (sort_loop d fuel a i k ≡ ok a')
        × Perm a' a
        × IsAscending a'
        × (length a' ≡ length a)
  unfolding sort_loop
  sort_loop-IsAscending zero a i k enough l out = absurd (omega arith)
  sort_loop-IsAscending (suc fuel) a i k enough l out = elim (Bool-cases (ltb i k)) [
    | inl y ↦
        let ik : i < k = ground arith in
        let found = scan d a (k - i) (i + 1) i i in
        let next = exchange d a i k found in
        let size = length-exchange d a i k found in
        let (moved, ends) = round-Ends d a i k ik l in
        let x = round-Extremes d a i k ik in
        let out' : Outside (key d next) (i + 1) (k - 1) (length next) =
          rw size (round-Outside (key d a) (key d next) i k (length a) ik l out moved ends) in
        let (a', e, perm, ascending, size') =
          sort_loop-IsAscending fuel next (i + 1) (k - 1) (omega arith) (omega arith) out' in
        let lo : found.0 < length a = let b = x.1 in omega arith in
        let hi : found.1 < length a = let b = x.3 in omega arith in
        (
          a',
          rw (sort_loop, y) e,
          Perm.trans perm (exchange-Perm a i k found (omega arith) l lo hi),
          ascending,
          size' ∙ size,
        )
    | inr n ↦ (
      a,
      rw (sort_loop, n) refl,
      Perm.rfl,
      λ p q pq qn. elim (Bool-cases (p == q)) [
        | inl y ↦ let same : p ≡ q = ground arith in rw same (omega arith)
        | inr f ↦ elim (Bool-cases (ltb p i)) [
          | inl t ↦ out p q pq qn (inl (ground arith))
          | inr u ↦ out p q pq qn (inr (ground arith))
        ]
      ],
      refl,
    )
  ]

  -- For at least one and less than 2 ^ 32 entries: `sort_asc_uint16_ptrs` returns, and leaves the same
  -- pairs in the ascending order of their integers.
  pub sort_asc_uint16_ptrs-IsAscending :
      (a : List (ℕ × A))
      → 0 < length a
      → length a < 2 ^ 32
      → (a' : List (ℕ × A)) × (sort_asc_uint16_ptrs d a (length a) ≡ ok a')
        × Perm a' a
        × IsAscending a'
        × (length a' ≡ length a)
  unfolding sort_asc_uint16_ptrs
  sort_asc_uint16_ptrs-IsAscending a some_entry small =
      let k : ℕ = (length a + (2 ^ 32 - 1)) % 2 ^ 32 in
      let last : k ≡ length a - 1 = omega arith in
      sort_loop-IsAscending (length a + 1) a 0 k (omega arith) (omega arith)
        (λ p q pq qn side. absurd (elim side [ inl h ↦ omega arith | inr h ↦ omega arith ]))
