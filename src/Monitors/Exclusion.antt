-- ===== src/Monitors/Exclusion.antt =====
-- Threads that enter and leave monitors in any order, between two collections: each call runs under
-- the lock of the virtual machine, so it is one step.
use native.Mathlib.Nat.{pow-le-pow_right}
use jelatine.Common.{
  ℕ, ◌+◌, ◌-◌, ◌^◌, ◌≤◌, ◌<◌, ◌≡◌, ◌≢◌, refl, ap, sym, ◌∙◌, inl, inr, Bool, true, false, ◌&&◌,
  Option, none, some, arith, ltb, ◌==◌, if◌then◌else◌, ==-refl, Bool-cases, Option-cases,
}
use mathlib.Core.Option.{some-injective}
use mathlib.Core.Path.{subst}
use jelatine.Monitors.{MonitorTable, Entered, enter, exit, monitor_init}
use jelatine.Monitors.View.{monitor_of}
use jelatine.Monitors.Validity.{IsValid}
use jelatine.Monitors.Entering.{enter_monitor, Entering, enter-Entering}
use jelatine.Monitors.Exiting.{owns, exit_monitor, exit-Exiting, monitor_init-IsValid}
use jelatine.Monitors.Nesting.{
  nesting, IsSane, enter-nesting, exit-nesting, exit-other, enter-more, exit-more,
}

-- The table, and how often each thread has entered the monitor of each reference.
pub record System : Type 0 where
  pub table : MonitorTable
  pub inside : ℕ → ℕ → ℕ

abbrev pub update : (ℕ → ℕ → ℕ) → ℕ → ℕ → ℕ → ℕ → ℕ → ℕ
update f i r v j s = if (i == j) && (r == s) then v else f j s

-- A call that returns. A thread and a reference are not NULL, the table is not as large as the
-- address space, and no thread enters a monitor 2 ^ 64 times.
pub data Step (s : System) : System → Type 0 where
  enters :
      (fuel i r : ℕ) {t : MonitorTable}
      → i ≢ 0
      → r ≢ 0
      → s.table.capacity < 2 ^ 63
      → s.inside i r + 1 < 2 ^ 64
      → enter fuel i r s.table ≡ Entered.acquired t
      → Step s (record { table = t; inside = update s.inside i r (s.inside i r + 1) })
  leaves :
      (fuel i r : ℕ) {t : MonitorTable}
      → i ≢ 0
      → r ≢ 0
      → exit fuel i r s.table ≡ some (true, t)
      → Step s (record { table = t; inside = update s.inside i r (s.inside i r - 1) })
  fails :
      (fuel i r : ℕ) {t : MonitorTable}
      → i ≢ 0
      → r ≢ 0
      → exit fuel i r s.table ≡ some (false, t)
      → Step s (record s { table = t })

pub data Reach : System → Type 0 where
  start : Reach (record { table = monitor_init; inside = λ i r. 0 })
  later : {s t : System} → Reach s → Step s t → Reach t

-- The table holds what the threads have entered.
pub record Inv (s : System) : Type 0 where
  pub valid : (k : ℕ) × (steps : ℕ) × IsValid k steps s.table
  pub sane : (r : ℕ) → r ≢ 0 → IsSane (monitor_of s.table r)
  pub agree : (i r : ℕ) → i ≢ 0 → r ≢ 0 → s.inside i r ≡ nesting i (monitor_of s.table r)

small_power : (k capacity : ℕ) → capacity ≡ 2 ^ k → capacity < 2 ^ 63 → k < 63
small_power k capacity e h = elim (Bool-cases (ltb k 63)) [
  | inl t ↦ ground arith
  | inr f ↦
      let big : 2 ^ 63 ≤ 2 ^ k = pow-le-pow_right (omega arith) {i = 63} {j = k} (ground arith) in
      absurd (omega arith)
]

table_of : Entered → MonitorTable
table_of (Entered.acquired t) = t
table_of _ = monitor_init

pub acquired-injective : {t t' : MonitorTable} → Entered.acquired t ≡ Entered.acquired t' → t ≡ t'
unfolding table_of
acquired-injective e = ap table_of e

-- A step that leaves every monitor but that of `r` alone.
module _ (s : System) (inv : Inv s) (i r : ℕ) (rz : r ≢ 0) (t : MonitorTable)
    (valid : (k : ℕ) × (steps : ℕ) × IsValid k steps t) (m : Option (ℕ × ℕ)) (n : ℕ)
    (view : (x : ℕ) → monitor_of t x ≡ (if r == x then m else monitor_of s.table x))
    (sane : IsSane m)
    (nests : (j : ℕ)
      → j ≢ 0
      → nesting j m ≡ (if i == j then n else nesting j (monitor_of s.table r))) where
  update-Inv : Inv (record { table = t; inside = update s.inside i r n })
  update-Inv = record {
    valid = valid;
    sane = λ x xz. elim (Bool-cases (r == x)) [
      | inl e ↦ rw (view x, e) sane
      | inr f ↦ rw (view x, f) (inv.sane x xz)
    ];
    agree = λ j x jz xz. elim (Bool-cases (r == x)) [
      | inl e ↦
          let same : r ≡ x = ground arith in
          let old = inv.agree j r jz rz in
          rw (view x, e, nests j jz)
            (elim (Bool-cases (i == j)) [ inl t ↦ rw t refl | inr f ↦ rw f (rw (← same) old) ])
      | inr f ↦ elim (Bool-cases (i == j)) [
        | inl t ↦ rw (view x, f, t) (inv.agree j x jz xz)
        | inr d ↦ rw (view x, f, d) (inv.agree j x jz xz)
      ]
    ];
  }

Inv-start : Inv (record { table = monitor_init; inside = λ i r. 0 })
Inv-start =
    let (valid, view) = monitor_init-IsValid in
    record {
      valid = (2, 1, valid);
      sane = λ r rz. rw (view r) tt;
      agree = λ i r iz rz. rw (view r) refl;
    }

-- What the answer of `monitor_exit` says.
exit_answer :
    (s : System) (inv : Inv s) (fuel i r : ℕ) (t : MonitorTable) (answer : Bool)
    → r ≢ 0
    → exit fuel i r s.table ≡ some (answer, t)
    → ((k : ℕ) × (steps : ℕ) × IsValid k steps t)
      × (owns i (monitor_of s.table r) ≡ answer)
      × ((x : ℕ)
          → monitor_of t x
            ≡ (if r == x then exit_monitor i (monitor_of s.table r) else monitor_of s.table x))
exit_answer s inv fuel i r t answer rz e =
    let (k, steps, v) = inv.valid in
    let more = exit-more fuel i r s.table steps (λ x. let b = sym e ∙ x in cc) ∙ e in
    let (t', e', valid, view) =
      exit-Exiting k steps s.table v i r rz (steps + fuel) (omega arith) in
    let both = some-injective _ _ (sym e' ∙ more) in
    let same : t' ≡ t = ap (λ p. p.1) both in
    (
      subst (λ u. (k : ℕ) × (steps : ℕ) × IsValid k steps u) same valid,
      ap (λ p. p.0) both,
      λ x. ap (λ u. monitor_of u x) (sym same) ∙ view x,
    )

-- Two threads that are in a monitor are the same.
one_owner : (i j : ℕ) (m : Option (ℕ × ℕ)) → 0 < nesting i m → 0 < nesting j m → i ≡ j
one_owner i j none hi hj = absurd (omega arith)
one_owner i j (some (o, c)) hi hj = ground arith

contended-monitor :
    (i : ℕ) (m : Option (ℕ × ℕ)) (r : Entered) (t : MonitorTable) (ref : ℕ)
    → r ≡ Entered.contended
    → Entering ref t (enter_monitor i m) r
    → (j : ℕ) × (c : ℕ) × (j ≢ i) × (j ≢ 0) × (m ≡ some (j, c))
contended-monitor i none r t ref e h =
    absurd (let (t', e', valid, view) = h in let b = sym e ∙ e' in cc)
contended-monitor i (some (o, c)) r t ref e h = elim (Bool-cases (o == 0)) [
  | inl free ↦ absurd (let (t', e', valid, view) = rw free at h in let b = sym e ∙ e' in cc)
  | inr taken ↦ elim (Bool-cases (o == i)) [
    | inl own ↦
        absurd (let (t', e', valid, view) = rw (taken, own) at h in let b = sym e ∙ e' in cc)
    | inr other ↦ (o, c, ground arith, ground arith, refl)
  ]
]

Step-Inv : {s t : System} → Step s t → Inv s → Inv t
Step-Inv {s} (enters fuel i r {t} iz rz small deep e) inv =
    let (k, steps, v) = inv.valid in
    let m = monitor_of s.table r in
    let more = enter-more fuel i r s.table steps (λ x. let b = sym e ∙ x in cc) ∙ e in
    let entering =
      enter-Entering k steps s.table v i r rz (steps + fuel) (omega arith)
        (small_power k s.table.capacity v.capacity small) in
    elim (Option-cases (enter_monitor i m)) [
      | inl z ↦
          let b : enter (steps + fuel) i r s.table ≡ Entered.contended = rw z at entering in
          absurd (let c = sym more ∙ b in cc)
      | inr (oc, z) ↦
          let (t', e', valid, view) = rw z at entering in
          let same : t' ≡ t = acquired-injective (sym e' ∙ more) in
          let deep' : nesting i m + 1 < 2 ^ 64 = rw (inv.agree i r iz rz) at deep in
          let (sane, nests) = enter-nesting i m oc.0 oc.1 iz (inv.sane r rz) z deep' in
          subst (λ u. Inv (record { table = u; inside = update s.inside i r (s.inside i r + 1) }))
            same
            (update-Inv s inv i r rz t' valid (some oc) (s.inside i r + 1) view sane
              (λ j jz. rw (inv.agree i r iz rz) (nests j jz)))
    ]
Step-Inv {s} (leaves fuel i r {t} iz rz e) inv =
    let (valid, owned, view) = exit_answer s inv fuel i r t true rz e in
    let (sane, nests) = exit-nesting i (monitor_of s.table r) iz (inv.sane r rz) owned in
    update-Inv s inv i r rz t valid (exit_monitor i (monitor_of s.table r)) (s.inside i r - 1) view
      sane (λ j jz. rw (inv.agree i r iz rz) (nests j jz))
Step-Inv {s} (fails fuel i r {t} iz rz e) inv =
    let (valid, free, view) = exit_answer s inv fuel i r t false rz e in
    let same : (x : ℕ) → monitor_of t x ≡ monitor_of s.table x = (λ x.
      view x ∙ elim (Bool-cases (r == x)) [
        | inl u ↦
            let rx : r ≡ x = ground arith in
            rw u (exit-other i (monitor_of s.table r) free ∙ ap (monitor_of s.table) rx)
        | inr w ↦ rw w refl
      ]) in
    record {
      valid = valid;
      sane = λ x xz. rw (same x) (inv.sane x xz);
      agree = λ j x jz xz. rw (same x) (inv.agree j x jz xz);
    }

pub Reach-Inv : {s : System} → Reach s → Inv s
Reach-Inv start = Inv-start
Reach-Inv (later r st) = Step-Inv st (Reach-Inv r)

-- In every state that is reached by calls of `monitor_enter` and `monitor_exit` in any order, with no
-- collection between them, no two threads are in the monitor of one object.
pub mutual_exclusion :
    {s : System}
    → Reach s
    → (i j r : ℕ) → i ≢ 0
    → j ≢ 0
    → r ≢ 0
    → 0 < s.inside i r
    → 0 < s.inside j r
    → i ≡ j
mutual_exclusion {s} reach i j r iz jz rz hi hj =
    let inv = Reach-Inv reach in
    one_owner i j (monitor_of s.table r) (rw (inv.agree i r iz rz) at hi)
      (rw (inv.agree j r jz rz) at hj)

-- In every such state, where a thread finds a monitor contended, another thread is in it, and a
-- call of `monitor_exit` by that thread leaves it: on enough fuel the call returns true.
pub contended-owner :
    {s : System}
    → Reach s
    → (fuel i r : ℕ) → i ≢ 0
    → r ≢ 0
    → s.table.capacity < 2 ^ 63
    → enter fuel i r s.table ≡ Entered.contended
    → (j : ℕ) × (j ≢ i)
      × (0 < s.inside j r)
      × (enough : ℕ) × (t : MonitorTable) × (exit enough j r s.table ≡ some (true, t))
contended-owner {s} reach fuel i r iz rz small e =
    let inv = Reach-Inv reach in
    let (k, steps, v) = inv.valid in
    let more = enter-more fuel i r s.table steps (λ x. let b = sym e ∙ x in cc) ∙ e in
    let entering =
      enter-Entering k steps s.table v i r rz (steps + fuel) (omega arith)
        (small_power k s.table.capacity v.capacity small) in
    let (j, c, other, jz, present) =
      contended-monitor i (monitor_of s.table r) (enter (steps + fuel) i r s.table) s.table r more
        entering in
    let (t, et, valid, view) = exit-Exiting k steps s.table v j r rz steps (omega arith) in
    let own : owns j (monitor_of s.table r) ≡ true = rw present (==-refl j) in
    let sane : IsSane (some (j, c)) = subst (λ m. IsSane m) present (inv.sane r rz) in
    let count : s.inside j r ≡ nesting j (some (j, c)) =
      inv.agree j r jz rz ∙ ap (nesting j) present in
    (j, other, rw count (ground arith), steps, t, et ∙ ap (λ b. some (b, t)) own)
