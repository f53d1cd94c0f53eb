-- ===== src/Monitors/Nesting.antt =====
-- How often a thread is in a monitor, over a call, and that more fuel does not change a call's answer.
use jelatine.Common.{
  ℕ, ◌+◌, ◌-◌, ◌%◌, ◌^◌, ◌<◌, ◌≡◌, ◌≢◌, ◌⊎◌, refl, inl, inr, true, false, Option, none, some, arith,
  ◌==◌, if◌then◌else◌, Bool-cases,
}
use jelatine.Monitors.{MonitorTable, Entered, enter, exit, Found, search, home}
use jelatine.Monitors.View.{some_pair-injective}
use jelatine.Monitors.Chains.{search-more}
use jelatine.Monitors.Entering.{enter_monitor}
use jelatine.Monitors.Exiting.{owns, exit_monitor}

-- How often the thread is in the monitor.
abbrev pub nesting : ℕ → Option (ℕ × ℕ) → ℕ
nesting i none = 0
nesting i (some (owner, count)) = if owner == i then count else 0

abbrev pub IsSane : Option (ℕ × ℕ) → Type 0
IsSane none = Unit {0}
IsSane (some (owner, count)) = (owner ≡ 0) ⊎ ((0 < count) × (count < 2 ^ 64))

pub enter-nesting :
    (i : ℕ) (m : Option (ℕ × ℕ)) (owner count : ℕ)
    → i ≢ 0
    → IsSane m
    → enter_monitor i m ≡ some (owner, count)
    → nesting i m + 1 < 2 ^ 64
    → IsSane (some (owner, count))
      × ((j : ℕ)
          → j ≢ 0
          → nesting j (some (owner, count)) ≡ (if i == j then nesting i m + 1 else nesting j m))
enter-nesting i none owner count nz sane e lim =
    let (qo, qc) = some_pair-injective {a = i} {b = 1} {c = owner} {d = count} e in
    (inr (omega arith), λ j jz. ground arith)
enter-nesting i (some (o, c)) owner count nz sane e lim = elim (Bool-cases (o == 0)) [
  | inl free ↦
      let (qo, qc) = some_pair-injective {a = i} {b = 1} {c = owner} {d = count} (rw free at e) in
      (inr (omega arith), λ j jz. ground arith)
  | inr taken ↦ elim (Bool-cases (o == i)) [
    | inl own ↦
        let e' = rw (taken, own) at e in
        let (qo, qc) =
          some_pair-injective {a = o} {b = (c + 1) % 2 ^ 64} {c = owner} {d = count} e' in
        (ground arith, λ j jz. ground arith)
    | inr other ↦ absurd (let e' = rw (taken, other) at e in cc)
  ]
]

pub exit-nesting :
    (i : ℕ) (m : Option (ℕ × ℕ))
    → i ≢ 0
    → IsSane m
    → owns i m ≡ true
    → IsSane (exit_monitor i m)
      × ((j : ℕ)
          → j ≢ 0
          → nesting j (exit_monitor i m) ≡ (if i == j then nesting i m - 1 else nesting j m))
exit-nesting i none nz sane e = absurd (let b = e in cc)
exit-nesting i (some (o, c)) nz sane e = (ground arith, λ j jz. ground arith)

pub exit-other : (i : ℕ) (m : Option (ℕ × ℕ)) → owns i m ≡ false → exit_monitor i m ≡ m
exit-other i none e = refl
exit-other i (some (o, c)) e = rw e refl

Found-cases :
    (f : Found) → ((i : ℕ) × (f ≡ Found.at_slot i)) ⊎ (f ≡ Found.absent) ⊎ (f ≡ Found.searching)
Found-cases (Found.at_slot i) = inl (i, refl)
Found-cases Found.absent = inr (inl refl)
Found-cases Found.searching = inr (inr refl)

-- More fuel does not change what a call answers.
module _ (fuel thread ref : ℕ) (t : MonitorTable) (extra : ℕ) where
  pub enter-more :
      enter fuel thread ref t ≢ Entered.looping
      → enter (extra + fuel) thread ref t ≡ enter fuel thread ref t
  unfolding enter
  enter-more ne = elim (Found-cases (search fuel t.buckets (home t.capacity ref) ref)) [
    | inl (i, e) ↦
        rw
          (
            enter,
            e,
            search-more fuel t.buckets (home t.capacity ref) ref (Found.at_slot i) (λ x. cc) e
                extra,
          )
          refl
    | inr (inl e) ↦
        rw
          (
            enter,
            e,
            search-more fuel t.buckets (home t.capacity ref) ref Found.absent (λ x. cc) e extra,
          )
          refl
    | inr (inr e) ↦ absurd (ne (rw (enter, e) refl))
  ]

  pub exit-more :
      exit fuel thread ref t ≢ none → exit (extra + fuel) thread ref t ≡ exit fuel thread ref t
  unfolding exit
  exit-more ne = elim (Found-cases (search fuel t.buckets (home t.capacity ref) ref)) [
    | inl (i, e) ↦
        rw
          (
            exit,
            e,
            search-more fuel t.buckets (home t.capacity ref) ref (Found.at_slot i) (λ x. cc) e
                extra,
          )
          refl
    | inr (inl e) ↦
        rw
          (
            exit,
            e,
            search-more fuel t.buckets (home t.capacity ref) ref Found.absent (λ x. cc) e extra,
          )
          refl
    | inr (inr e) ↦ absurd (ne (rw (exit, e) refl))
  ]
