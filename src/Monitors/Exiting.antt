-- ===== src/Monitors/Exiting.antt =====
-- What leaving a monitor does, in a table between two collections, and what the table starts as.
use jelatine.Common.{
  ℕ, ◌+◌, ◌-◌, ◌%◌, ◌^◌, ◌≤◌, ◌≡◌, ◌≢◌, refl, ap, sym, ◌∙◌, inl, inr, Bool, false, Option, none,
  some, arith, ◌==◌, if◌then◌else◌, set, Bool-cases,
}
use jelatine.Monitors.{MonitorTable, slot, exit_found, exit, notify, monitor_init}
use jelatine.Monitors.Slots.{count}
use jelatine.Monitors.Growing.{free-IsTable}
use jelatine.Monitors.View.{scan, monitor_of, scan-eq_none}
use jelatine.Monitors.Validity.{IsValid}
use jelatine.Monitors.Entering.{search-cases, found-scan, set_monitor}

-- Whether the thread has the monitor.
abbrev pub owns : ℕ → Option (ℕ × ℕ) → Bool
owns thread none = false
owns thread (some (owner, count)) = owner == thread

-- What leaving makes of a monitor.
abbrev pub exit_monitor : ℕ → Option (ℕ × ℕ) → Option (ℕ × ℕ)
exit_monitor thread none = none
exit_monitor thread (some (owner, count)) =
    if owner == thread
    then some (if count == 1 then 0 else owner, (count + (2 ^ 64 - 1)) % 2 ^ 64)
    else some (owner, count)

abbrev pub Exiting : ℕ → ℕ → MonitorTable → Option (Bool × MonitorTable) → Type 0
Exiting thread ref t r =
    (t' : MonitorTable) × (r ≡ some (owns thread (monitor_of t ref), t'))
    × ((k : ℕ) × (steps : ℕ) × IsValid k steps t')
    × ((x : ℕ)
        → monitor_of t' x
          ≡ (if ref == x then exit_monitor thread (monitor_of t ref) else monitor_of t x))

view_same :
    (t : MonitorTable) (ref : ℕ) (m : Option (ℕ × ℕ))
    → monitor_of t ref ≡ m
    → (x : ℕ) → monitor_of t x ≡ (if ref == x then m else monitor_of t x)
view_same t ref m e x = elim (Bool-cases (ref == x)) [
  | inl s ↦ let same : ref ≡ x = ground arith in rw s (ap (monitor_of t) (sym same) ∙ e)
  | inr f ↦ rw f refl
]

module _ (k steps : ℕ) (t : MonitorTable) (v : IsValid k steps t) (thread ref : ℕ) (nz : ref ≢ 0)
    (fuel : ℕ) (le : steps ≤ fuel) where
  -- In a table between two collections, on enough fuel, `monitor_exit` says whether the thread has the
  -- monitor of the reference. If it has, the monitor is counted once less, and it is free when the count
  -- was one; every other monitor is as before, and if the thread does not have it, all are.
  pub exit-Exiting : Exiting thread ref t (exit fuel thread ref t)
  unfolding exit exit_found
  exit-Exiting = elim (search-cases k steps t v thread ref nz fuel le) [
    | inr (e, new) ↦
        let absent : monitor_of t ref ≡ none =
          unfold monitor_of in scan-eq_none ref nz t.buckets new in
        rw (exit, e)
          (t, rw absent refl, (k, steps, v), λ x. rw absent (view_same t ref none absent x))
    | inl (i, e, at_ref) ↦
        let present = found-scan k steps t v thread ref nz i at_ref in
        elim (Bool-cases ((slot t.buckets i).owner == thread)) [
          | inl own ↦
              let o : ℕ = if (slot t.buckets i).count == 1 then 0 else (slot t.buckets i).owner in
              let c : ℕ = ((slot t.buckets i).count + (2 ^ 64 - 1)) % 2 ^ 64 in
              let (valid, view) = set_monitor k steps t v thread ref nz i o c at_ref in
              rw (exit, e, exit_found, own)
                (
                  record t {
                    buckets = set t.buckets i (record (slot t.buckets i) { owner = o; count = c });
                  },
                  rw (present, own) refl,
                  valid,
                  λ x. rw (present, own) (view x),
                )
          | inr other ↦
              rw (exit, e, exit_found, other)
                (
                  t,
                  rw (present, other) refl,
                  (k, steps, v),
                  λ x.
                      rw (present, other)
                        (view_same t ref (some ((slot t.buckets i).owner, (slot t.buckets i).count))
                          present x),
                )
        ]
  ]

  -- `thread_notify` answers as `monitor_exit` does.
  pub notify-owns :
      (condition : ℕ) × (notify fuel thread ref t
        ≡ some (owns thread (monitor_of t ref), condition))
  unfolding notify
  notify-owns = elim (search-cases k steps t v thread ref nz fuel le) [
    | inr (e, new) ↦
        let absent : monitor_of t ref ≡ none =
          unfold monitor_of in scan-eq_none ref nz t.buckets new in
        rw (notify, e, absent) (0, refl)
    | inl (i, e, at_ref) ↦
        let present = found-scan k steps t v thread ref nz i at_ref in
        elim (Bool-cases ((slot t.buckets i).owner == thread)) [
          | inl own ↦ rw (notify, e, present, own) ((slot t.buckets i).cond, refl)
          | inr other ↦ rw (notify, e, present, other) (0, refl)
        ]
  ]

pub monitor_init-IsValid : IsValid 2 1 monitor_init × ((x : ℕ) → monitor_of monitor_init x ≡ none)
unfolding monitor_init
monitor_init-IsValid = (
  record { capacity = refl; table = free-IsTable 2; entries = refl; room = omega arith },
  λ x. unfold monitor_of scan in refl,
)
