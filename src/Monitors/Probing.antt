-- ===== src/Monitors/Probing.antt =====
-- The search for a free bucket finds one where there is one.
use native.Mathlib.Nat.{mod-lt, mod-eq_of_lt, one-le-pow, mod_self}
use jelatine.Common.Bits.{bit_and-mask}
use jelatine.Common.{
  ℕ, zero, suc, ◌+◌, ◌-◌, ◌^◌, ◌≤◌, ◌<◌, ◌≡◌, ◌≢◌, ◌⊎◌, refl, sym, ◌∙◌, inl, inr, bit_and, false,
  none, some, List, [], ◌∷◌, arith, ◌==◌, length, Bool-cases, Option-cases,
}
use mathlib.Core.Option.{some-injective}
use jelatine.Monitors.{Monitor, slot, probe}
use jelatine.Monitors.Slots.{count, is_used}

module _ (k : ℕ) where
  pub mask-lt : (a : ℕ) → bit_and a (2 ^ k - 1) < 2 ^ k
  mask-lt a = rw (bit_and-mask k a) (mod-lt a (one-le-pow k 2 (omega arith)))

  -- The next bucket around the table.
  next-in : (i : ℕ) → i + 1 < 2 ^ k → bit_and (i + 1) (2 ^ k - 1) ≡ i + 1
  next-in i h = bit_and-mask k (i + 1) ∙ mod-eq_of_lt h

  next-wrap : (i : ℕ) → i + 1 ≡ 2 ^ k → bit_and (i + 1) (2 ^ k - 1) ≡ 0
  next-wrap i h = bit_and-mask k (i + 1) ∙ rw h (mod_self (2 ^ k))

  probe-some :
      (fuel : ℕ) (bs : List Monitor) (i j : ℕ)
      → i < 2 ^ k
      → probe fuel (2 ^ k) bs i ≡ some j
      → (j < 2 ^ k) × ((slot bs j).ref ≡ 0) × ((j ≡ i) ⊎ ((slot bs i).ref ≢ 0))
  unfolding probe
  probe-some zero bs i j h e = absurd (let b = e in cc)
  probe-some (suc fuel) bs i j h e = elim (Bool-cases ((slot bs i).ref == 0)) [
    | inl t ↦
        let here : some i ≡ some j = rw t at e in
        let same : i ≡ j = some-injective _ _ here in
        (omega arith, rw (← same) (ground arith), inl (sym same))
    | inr f ↦
        let there : probe fuel (2 ^ k) bs (bit_and (i + 1) (2 ^ k - 1)) ≡ some j = rw f at e in
        let ih = probe-some fuel bs (bit_and (i + 1) (2 ^ k - 1)) j (mask-lt (i + 1)) there in
        (ih.0, ih.1, inr (ground arith))
  ]

  -- A bucket that `fuel` rounds from `i` on come by.
  abbrev Visited : ℕ → ℕ → ℕ → Type 0
  Visited fuel i j = ((i ≤ j) × (j < i + fuel)) ⊎ (j + 2 ^ k < i + fuel)

  probe-none :
      (fuel : ℕ) (bs : List Monitor) (i j : ℕ)
      → i < 2 ^ k
      → j < 2 ^ k
      → probe fuel (2 ^ k) bs i ≡ none
      → Visited fuel i j
      → (slot bs j).ref ≢ 0
  unfolding probe
  probe-none zero bs i j h l e v = absurd (ground arith)
  probe-none (suc fuel) bs i j h l e v = elim (Bool-cases ((slot bs i).ref == 0)) [
    | inl t ↦ let here : some i ≡ none = rw t at e in absurd (let b = here in cc)
    | inr f ↦
        let there : probe fuel (2 ^ k) bs (bit_and (i + 1) (2 ^ k - 1)) ≡ none = rw f at e in
        elim (Bool-cases (i == j)) [
          | inl s ↦ let same : i ≡ j = ground arith in rw (← same) (ground arith)
          | inr d ↦ elim (Bool-cases (i + 1 == 2 ^ k)) [
            | inl w ↦
                let next = next-wrap i (ground arith) in
                probe-none fuel bs 0 j (omega arith) l (rw next at there) (ground arith)
            | inr u ↦
                let in_range : i + 1 < 2 ^ k = ground arith in
                let next = next-in i in_range in
                probe-none fuel bs (i + 1) j in_range l (rw next at there) (ground arith)
          ]
        ]
  ]

all_used :
    (bs : List Monitor)
    → ((j : ℕ) → j < length bs → (slot bs j).ref ≢ 0)
    → count is_used bs ≡ length bs
all_used [] h = refl
all_used (m ∷ bs) h =
    let f : (m.ref == 0) ≡ false = ground (arith, h 0) in
    rw f (omega (arith, all_used bs (λ j l. h (suc j) (omega arith))))

pub probe-total :
    (k : ℕ) (bs : List Monitor) (i : ℕ)
    → length bs ≡ 2 ^ k
    → i < 2 ^ k
    → count is_used bs < 2 ^ k
    → (j : ℕ) × (probe (2 ^ k) (2 ^ k) bs i ≡ some j)
      × (j < 2 ^ k)
      × ((slot bs j).ref ≡ 0)
      × ((j ≡ i) ⊎ ((slot bs i).ref ≢ 0))
probe-total k bs i e h few = elim (Option-cases (probe (2 ^ k) (2 ^ k) bs i)) [
  | inl n ↦ absurd (
      omega
        (arith, all_used bs (λ j l. probe-none k (2 ^ k) bs i j h (omega arith) n (ground arith))))
  | inr (j, p) ↦ let (lt, free, clash) = probe-some k (2 ^ k) bs i j h p in (j, p, lt, free, clash)
]
