-- ===== src/Monitors/Entering.antt =====
-- What entering a monitor does, in a table between two collections.
use jelatine.Common.{
  ℕ, ◌+◌, ◌-◌, ◌%◌, ◌^◌, ◌≤◌, ◌<◌, ◌≡◌, ◌≢◌, ◌⊎◌, refl, ap, sym, ◌∙◌, inl, inr, true, false, Option,
  none, some, List, arith, ◌==◌, if◌then◌else◌, set, Bool-cases,
}
use mathlib.Core.Path.{subst}
use jelatine.Monitors.{
  Monitor, MonitorTable, free_monitor, slot, home, Found, search, probe, place, Entered,
  enter_found, resize, enter_new, enter,
}
use jelatine.Monitors.Slots.{count, has, is_used, count-slot, slot-count}
use jelatine.Monitors.Chains.{search-more}
use jelatine.Monitors.Growing.{held, has-IsTest, held-IsTest, is_used-IsTest, insert-Insertion}
use jelatine.Monitors.View.{scan, monitor_of, scan-eq_none, scan-eq_held, scan-update}
use jelatine.Monitors.Validity.{
  IsValid, resize-Resized, changed-IsTable, changed-used, changed-scan,
}

-- What entering makes of a monitor: the owner and the count afterwards, or nothing where another
-- thread has it.
abbrev pub enter_monitor : ℕ → Option (ℕ × ℕ) → Option (ℕ × ℕ)
enter_monitor thread none = some (thread, 1)
enter_monitor thread (some (owner, count)) =
    if owner == 0
    then some (thread, 1)
    else if owner == thread
    then some (owner, (count + 1) % 2 ^ 64)
    else none

-- The table in which the monitor of `ref` alone has changed, to `after`; none where another has it.
abbrev pub Entering : ℕ → MonitorTable → Option (ℕ × ℕ) → Entered → Type 0
Entering ref t none r = r ≡ Entered.contended
Entering ref t (some after) r =
    (t' : MonitorTable) × (r ≡ Entered.acquired t')
    × ((k : ℕ) × (steps : ℕ) × IsValid k steps t')
    × ((x : ℕ) → monitor_of t' x ≡ (if ref == x then some after else monitor_of t x))

module _ (k steps : ℕ) (t : MonitorTable) (v : IsValid k steps t) (thread ref : ℕ)
    (nz : ref ≢ 0) where
  pub found-scan :
      (i : ℕ)
      → (slot t.buckets i).ref ≡ ref
      → monitor_of t ref ≡ some ((slot t.buckets i).owner, (slot t.buckets i).count)
  unfolding monitor_of
  found-scan i e =
      let m : Monitor = slot t.buckets i in
      let h : held ref m.owner m.count m ≡ true = ground arith in
      scan-eq_held ref nz t.buckets m.owner m.count (v.table.once ref nz)
        (count-slot (held ref m.owner m.count) t.buckets i
          ((held-IsTest ref m.owner m.count nz).unused free_monitor refl) h).1

  pub set_monitor :
      (i o c : ℕ)
      → (slot t.buckets i).ref ≡ ref
      → ((k : ℕ) × (steps : ℕ) × IsValid k steps (record t {
        buckets = set t.buckets i (record (slot t.buckets i) { owner = o; count = c });
      }))
        × ((x : ℕ)
            → monitor_of
                (record t {
                  buckets = set t.buckets i (record (slot t.buckets i) { owner = o; count = c });
                })
                x
              ≡ (if ref == x then some (o, c) else monitor_of t x))
  unfolding monitor_of
  set_monitor i o c e =
      let used : (slot t.buckets i).ref ≢ 0 = (λ x. nz (sym e ∙ x)) in
      (
        (
          k,
          steps,
          record {
            capacity = v.capacity;
            table = changed-IsTable k steps t.buckets v.table i o c used;
            entries = changed-used k steps t.buckets v.table i o c used ∙ v.entries;
            room = v.room;
          },
        ),
        λ x.
            subst
              (λ r.
                scan (set t.buckets i (record (slot t.buckets i) { owner = o; count = c })) x
                ≡ (if r == x then some (o, c) else scan t.buckets x))
              e (changed-scan k steps t.buckets v.table i o c used x),
      )

  enter_found-Entering :
      (i : ℕ)
      → (slot t.buckets i).ref ≡ ref
      → Entering ref t (enter_monitor thread (monitor_of t ref)) (enter_found thread i t)
  unfolding enter_found
  enter_found-Entering i e =
      rw (found-scan i e) (elim (Bool-cases ((slot t.buckets i).owner == 0)) [
        | inl free ↦
            let (valid, view) = set_monitor i thread 1 e in
            rw (enter_found, free)
              (
                record t {
                  buckets =
                      set t.buckets i (record (slot t.buckets i) { owner = thread; count = 1 });
                },
                refl,
                valid,
                view,
              )
        | inr taken ↦ elim (Bool-cases ((slot t.buckets i).owner == thread)) [
          | inl own ↦
              let c : ℕ = ((slot t.buckets i).count + 1) % 2 ^ 64 in
              let (valid, view) = set_monitor i (slot t.buckets i).owner c e in
              rw (enter_found, taken, own)
                (
                  record t { buckets = set t.buckets i (record (slot t.buckets i) { count = c }) },
                  refl,
                  valid,
                  view,
                )
          | inr other ↦ rw (enter_found, taken, other) refl
        ]
      ])

  enter_new-eq :
      (i : ℕ)
      → probe t.capacity t.capacity t.buckets (home t.capacity ref) ≡ some i
      → enter_new thread ref t
        ≡ resize (record t {
          entries = t.entries + 1;
          buckets =
              place t.buckets
                (home t.capacity ref)
                i
                (record (slot t.buckets i) { ref = ref; owner = thread; count = 1 });
        })
  unfolding enter_new
  enter_new-eq i e = rw (enter_new, e) refl

  enter_new-Entering :
      k < 63
      → count (has ref) t.buckets ≡ 0
      → Entering ref t (some (thread, 1)) (enter_new thread ref t)
  unfolding enter_new monitor_of
  enter_new-Entering small new =
      let room : count is_used t.buckets < 2 ^ k = omega (arith, v.entries, v.room, v.capacity) in
      let (i, put) = insert-Insertion k steps t.buckets v.table ref nz new room in
      let m : Monitor = record (slot t.buckets i) { ref = ref; owner = thread; count = 1 } in
      let ins = put m refl in
      let bs : List Monitor = place t.buckets (home (2 ^ k) ref) i m in
      let used : count is_used bs ≡ t.entries + 1 =
        (let f : (ref == 0) ≡ false = ground arith in
          omega (arith, v.entries, (rw f at (ins.counts is_used is_used-IsTest)))) in
      let (t', e, valid, view) =
        resize-Resized k (2 + (steps + steps)) (record t { entries = t.entries + 1; buckets = bs })
          v.capacity small ins.table used (omega (arith, v.room)) in
      let here : held ref thread 1 m ≡ true = ground arith in
      let update =
        scan-update t.buckets bs ref thread 1 nz ins.table.once
          (omega
            (arith, (rw here at (ins.counts (held ref thread 1) (held-IsTest ref thread 1 nz)))))
          (λ r rz ne.
            let f : (ref == r) ≡ false = ground arith in
            omega (arith, (rw f at (ins.counts (has r) (has-IsTest r rz)))))
          (λ r x y rz ne.
            let f : (ref == r) ≡ false = ground arith in
            omega (arith, (rw f at (ins.counts (held r x y) (held-IsTest r x y rz))))) in
      (
        t',
        enter_new-eq i
              (subst (λ c. probe c c t.buckets (home c ref) ≡ some i) (sym v.capacity) ins.found)
            ∙ ap
                (λ c. resize (record t {
                  entries = t.entries + 1;
                  buckets = place t.buckets (home c ref) i m;
                }))
                v.capacity
            ∙ e,
        valid,
        λ x. view x ∙ update x,
      )

  -- The search from the bucket of the reference, on enough fuel.
  pub search-cases :
      (fuel : ℕ)
      → steps ≤ fuel
      → ((i : ℕ) × (search fuel t.buckets (home t.capacity ref) ref ≡ Found.at_slot i)
          × ((slot t.buckets i).ref ≡ ref))
        ⊎ ((search fuel t.buckets (home t.capacity ref) ref ≡ Found.absent)
            × (count (has ref) t.buckets ≡ 0))
  search-cases fuel le =
      let enough : fuel - steps + steps ≡ fuel = omega arith in
      elim (Bool-cases (count (has ref) t.buckets == 0)) [
        | inl z ↦
            let none_left : count (has ref) t.buckets ≡ 0 = ground arith in
            let out : (j : ℕ) → (slot t.buckets j).ref ≢ ref = (λ j x.
              let (lt, pos) =
                count-slot (has ref) t.buckets j ((has-IsTest ref nz).unused free_monitor refl)
                  (ground arith) in
              omega arith) in
            inr (
              subst (λ c. search fuel t.buckets (home c ref) ref ≡ Found.absent) (sym v.capacity)
                  (subst (λ f. search f t.buckets (home (2 ^ k) ref) ref ≡ Found.absent) enough
                    (search-more steps t.buckets (home (2 ^ k) ref) ref Found.absent (λ x. cc)
                      (v.table.chained.misses ref nz out) (fuel - steps))),
              none_left,
            )
        | inr p ↦
            let (i, h) = slot-count (has ref) t.buckets (ground arith) in
            let e : (slot t.buckets i).ref ≡ ref = ground arith in
            let found =
              subst (λ r. search steps t.buckets (home (2 ^ k) r) r ≡ Found.at_slot i) e
                (v.table.chained.finds i (λ x. nz (sym e ∙ x))) in
            inl (
              i,
              subst (λ c. search fuel t.buckets (home c ref) ref ≡ Found.at_slot i) (sym v.capacity)
                  (subst (λ f. search f t.buckets (home (2 ^ k) ref) ref ≡ Found.at_slot i) enough
                    (search-more steps t.buckets (home (2 ^ k) ref) ref (Found.at_slot i) (λ x. cc)
                      found (fuel - steps))),
              e,
            )
      ]

  -- In a table between two collections, of `2 ^ k` buckets in which every search ends in `steps` steps,
  -- on at least that fuel and for `k` below 63, a round of `monitor_enter` changes the monitor of the
  -- reference alone, also where it grows or shrinks the table: a monitor that is new or that no thread has
  -- is the thread's, once; one that it has is counted once more; where another thread has it, the round
  -- finds it contended. The table that it leaves is again such a table.
  pub enter-Entering :
      (fuel : ℕ)
      → steps ≤ fuel
      → k < 63
      → Entering ref t (enter_monitor thread (monitor_of t ref)) (enter fuel thread ref t)
  unfolding enter monitor_of
  enter-Entering fuel le small = elim (search-cases fuel le) [
    | inl (i, e, at_ref) ↦ rw (enter, e) (enter_found-Entering i at_ref)
    | inr (e, new) ↦ rw (enter, e, scan-eq_none ref nz t.buckets new) (enter_new-Entering small new)
  ]
