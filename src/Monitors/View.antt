-- ===== src/Monitors/View.antt =====
-- What the monitor table stands for: the thread that holds the monitor of a reference, and how often.
use jelatine.Common.{
  ℕ, ◌≤◌, ◌<◌, ◌≡◌, ◌≢◌, refl, ap, sym, ◌∙◌, inl, inr, true, false, ◌&&◌, Option, none, some, List,
  [], ◌∷◌, arith, ◌==◌, if◌then◌else◌, Bool-cases, Option-cases,
}
use mathlib.Core.Option.{some-injective}
use jelatine.Monitors.{Monitor, MonitorTable}
use jelatine.Monitors.Slots.{count, has, is_used}
use jelatine.Monitors.Growing.{held}

-- The owner, or 0, and the number of times that the monitor has been entered.
unfoldable pub scan : List Monitor → ℕ → Option (ℕ × ℕ)
scan [] r = none
scan (m ∷ buckets) r =
    let rest = scan buckets r in if is_used m && (m.ref == r) then some (m.owner, m.count) else rest

unfoldable pub monitor_of : MonitorTable → ℕ → Option (ℕ × ℕ)
monitor_of t r = scan t.buckets r

pub some_pair-injective :
    {a b c d : ℕ} → ◌≡◌ {A = Option (ℕ × ℕ)} (some (a, b)) (some (c, d)) → (a ≡ c) × (b ≡ d)
some_pair-injective e = (ap (λ p. p.0) (some-injective _ _ e), ap (λ p. p.1) (some-injective _ _ e))

pub scan-zero : (bs : List Monitor) → scan bs 0 ≡ none
unfolding scan
scan-zero [] = refl
scan-zero (m ∷ bs) = ground (arith, scan-zero bs)

module _ (r : ℕ) (nz : r ≢ 0) where
  pub scan-held :
      (bs : List Monitor) (o c : ℕ) → scan bs r ≡ some (o, c) → 0 < count (held r o c) bs
  unfolding scan
  scan-held [] o c e = absurd (let b = e in cc)
  scan-held (m ∷ bs) o c e = elim (Bool-cases (is_used m && (m.ref == r))) [
    | inl t ↦
        let (qo, qc) =
          some_pair-injective {a = m.owner} {b = m.count} {c = o} {d = c} (rw t at e) in
        ground arith
    | inr f ↦ let e' : scan bs r ≡ some (o, c) = rw f at e in omega (arith, scan-held bs o c e')
  ]

  pub scan-none : (bs : List Monitor) → scan bs r ≡ none → count (has r) bs ≡ 0
  unfolding scan
  scan-none [] e = refl
  scan-none (m ∷ bs) e = ground (arith, scan-none bs)

  pub scan-eq_none : (bs : List Monitor) → count (has r) bs ≡ 0 → scan bs r ≡ none
  unfolding scan
  scan-eq_none [] e = refl
  scan-eq_none (m ∷ bs) e = ground (arith, scan-eq_none bs)

  held-has : (bs : List Monitor) (o c : ℕ) → count (held r o c) bs ≤ count (has r) bs
  held-has [] o c = omega arith
  held-has (m ∷ bs) o c = ground (arith, held-has bs o c)

  pub scan-eq_held :
      (bs : List Monitor) (o c : ℕ)
      → count (has r) bs ≤ 1
      → 0 < count (held r o c) bs
      → scan bs r ≡ some (o, c)
  unfolding scan
  scan-eq_held [] o c once h = absurd (omega arith)
  scan-eq_held (m ∷ bs) o c once h = elim (Bool-cases (is_used m && (m.ref == r))) [
    | inl t ↦
        let here : (m.ref == r) ≡ true = ground arith in
        let rest : count (held r o c) bs ≡ 0 = ground (arith, held-has bs o c) in
        let qo : m.owner ≡ o = ground arith in
        let qc : m.count ≡ c = ground arith in rw (t, qo, qc) refl
    | inr f ↦
        let there : (m.ref == r) ≡ false = ground arith in
        rw f (scan-eq_held bs o c (ground arith) (ground arith))
  ]

  -- Tables that hold the same monitors of the reference answer alike.
  pub scan_congr :
      (bs bs' : List Monitor)
      → count (has r) bs' ≤ 1
      → count (has r) bs' ≡ count (has r) bs
      → ((o c : ℕ) → count (held r o c) bs' ≡ count (held r o c) bs)
      → scan bs' r ≡ scan bs r
  scan_congr bs bs' once same_has same = elim (Option-cases (scan bs r)) [
    | inl e ↦ rw e (scan-eq_none bs' (same_has ∙ scan-none bs e))
    | inr (oc, e) ↦
        rw e (scan-eq_held bs' oc.0 oc.1 once (rw (same oc.0 oc.1) (scan-held bs oc.0 oc.1 e)))
  ]

-- One monitor has changed or is new.
pub scan-update :
    (bs bs' : List Monitor) (ref o c : ℕ)
    → ref ≢ 0
    → ((r : ℕ) → r ≢ 0 → count (has r) bs' ≤ 1)
    → 0 < count (held ref o c) bs'
    → ((r : ℕ) → r ≢ 0 → ref ≢ r → count (has r) bs' ≡ count (has r) bs)
    → ((r x y : ℕ) → r ≢ 0 → ref ≢ r → count (held r x y) bs' ≡ count (held r x y) bs)
    → (r : ℕ) → scan bs' r ≡ (if ref == r then some (o, c) else scan bs r)
scan-update bs bs' ref o c nz once h same_has same r = elim (Bool-cases (ref == r)) [
  | inl t ↦
      let e : ref ≡ r = ground arith in rw (t, ← e) (scan-eq_held ref nz bs' o c (once ref nz) h)
  | inr f ↦ rw f (elim (Bool-cases (r == 0)) [
    | inl z ↦ let e : r ≡ 0 = ground arith in rw e (scan-zero bs' ∙ sym (scan-zero bs))
    | inr n ↦
        let rz : r ≢ 0 = ground arith in
        let ne : ref ≢ r = ground arith in
        scan_congr r rz bs bs' (once r rz) (same_has r rz ne) (λ x y. same r x y rz ne)
  ])
]
