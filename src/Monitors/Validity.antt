-- ===== src/Monitors/Validity.antt =====
-- The invariant of the monitor table between two collections, and the tables that a change of an owner
-- and `tm_rehash` leave.
use native.Mathlib.Nat.{pow-suc, one-le-pow, pow-le-pow_right, mod-eq_of_lt}
use jelatine.Common.{
  ℕ, zero, suc, ◌*◌, ◌/◌, ◌%◌, ◌^◌, ◌≤◌, ◌<◌, ◌≡◌, ◌≢◌, ◌⊎◌, refl, ap, sym, ◌∙◌, inl, inr, Bool,
  true, false, some, List, arith, ltb, ◌==◌, if◌then◌else◌, set, get_or-set_self, get_or-set_ne,
  length-set, replicate, length, Bool-cases,
}
use jelatine.Monitors.{
  Monitor, MonitorTable, free_monitor, slot, home, search, rehash_loop, rehash, Entered, resize,
}
use jelatine.Monitors.Slots.{Test, count, has, is_used, count-set, count-slot, count-replicate}
use jelatine.Monitors.Chains.{
  IsChained, search-here, search-end, search-next, step_cases, searching-zero,
}
use jelatine.Monitors.Growing.{
  IsTest, IsTable, held, has-IsTest, held-IsTest, is_used-IsTest, free-IsTable, rehash_loop-IsTable,
}
use jelatine.Monitors.View.{scan, monitor_of, scan-zero, scan_congr, scan-update}

-- A table of `2 ^ k` buckets in which every search ends in `steps` steps.
pub record IsValid (k steps : ℕ) (t : MonitorTable) : Type 0 where
  pub capacity : t.capacity ≡ 2 ^ k
  pub table : IsTable k steps t.buckets
  pub entries : count is_used t.buckets ≡ t.entries
  pub room : t.entries < t.capacity

-- The chains of buckets that only differ in owners, counts and conditions.
module _ (bs bs' : List Monitor) (refs : (j : ℕ) → (slot bs' j).ref ≡ (slot bs j).ref)
    (nexts : (j : ℕ) → (slot bs' j).next ≡ (slot bs j).next) where
  search-relabel : (fuel i r : ℕ) → search fuel bs' i r ≡ search fuel bs i r
  search-relabel zero i r = searching-zero bs' i r ∙ sym (searching-zero bs i r)
  search-relabel (suc fuel) i r = elim (step_cases bs i r) [
    | inl h ↦ search-here bs' i r fuel (refs i ∙ h) ∙ sym (search-here bs i r fuel h)
    | inr (inl (n, h)) ↦
        search-end bs' i r fuel (λ x. n (sym (refs i) ∙ x)) (nexts i ∙ h)
        ∙ sym (search-end bs i r fuel n h)
    | inr (inr (n, k, h)) ↦
        search-next bs' i r fuel k (λ x. n (sym (refs i) ∙ x)) (nexts i ∙ h)
        ∙ search-relabel fuel k r
        ∙ sym (search-next bs i r fuel k n h)
  ]

  relabel-IsChained :
      (capacity steps : ℕ) → IsChained capacity steps bs → IsChained capacity steps bs'
  relabel-IsChained capacity steps c = record {
    ends = λ j x. nexts j ∙ c.ends j (sym (refs j) ∙ x);
    links = λ j k x y. c.links j k (sym (nexts j) ∙ x) (sym (refs k) ∙ y);
    finds = λ j x. rw (refs j) (
        search-relabel steps (home capacity (slot bs j).ref) (slot bs j).ref
        ∙ c.finds j (λ y. x (refs j ∙ y)));
    misses = λ r nz o.
        search-relabel steps (home capacity r) r ∙ c.misses r nz (λ j x. o j (refs j ∙ x));
  }

-- The owner and the count of the monitor in the bucket `i` change.
module _ (k steps : ℕ) (bs : List Monitor) (v : IsTable k steps bs) (i o c : ℕ)
    (used : (slot bs i).ref ≢ 0) where
  abbrev changed : Monitor
  changed = record (slot bs i) { owner = o; count = c }

  in_table : i < length bs
  in_table = (count-slot is_used bs i refl (ground arith)).0

  pub changed-slot : (j : ℕ) → (j ≡ i) ⊎ (j ≢ i)
  changed-slot j = ground arith

  pub changed-refs : (j : ℕ) → (slot (set bs i changed) j).ref ≡ (slot bs j).ref
  changed-refs j = elim (changed-slot j) [
    | inl e ↦ rw e (ap Monitor.ref (get_or-set_self bs i changed free_monitor in_table))
    | inr n ↦ ap Monitor.ref (get_or-set_ne bs i j changed free_monitor (λ x. n (sym x)))
  ]

  pub changed-nexts : (j : ℕ) → (slot (set bs i changed) j).next ≡ (slot bs j).next
  changed-nexts j = elim (changed-slot j) [
    | inl e ↦ rw e (ap Monitor.next (get_or-set_self bs i changed free_monitor in_table))
    | inr n ↦ ap Monitor.next (get_or-set_ne bs i j changed free_monitor (λ x. n (sym x)))
  ]

  pub changed-count :
      (p : Test) → p changed ≡ p (slot bs i) → count p (set bs i changed) ≡ count p bs
  changed-count p e = omega (arith, (rw e at (count-set p bs i changed in_table)))

  pub changed-IsTable : IsTable k steps (set bs i changed)
  changed-IsTable = record {
    buckets = length-set bs i changed ∙ v.buckets;
    once = λ r nz. rw (changed-count (has r) refl) (v.once r nz);
    chained =
        relabel-IsChained bs (set bs i changed) changed-refs changed-nexts (2 ^ k) steps v.chained;
  }

  pub changed-used : count is_used (set bs i changed) ≡ count is_used bs
  changed-used = changed-count is_used refl

  pub changed-held : 0 < count (held (slot bs i).ref o c) (set bs i changed)
  changed-held =
      let self = get_or-set_self bs i changed free_monitor in_table in
      let t : held (slot bs i).ref o c changed ≡ true = ground arith in
      (count-slot (held (slot bs i).ref o c) (set bs i changed) i
        ((held-IsTest (slot bs i).ref o c used).unused free_monitor refl)
        (ap (held (slot bs i).ref o c) self ∙ t)).1

  pub changed-scan :
      (r : ℕ)
      → scan (set bs i changed) r ≡ (if (slot bs i).ref == r then some (o, c) else scan bs r)
  changed-scan =
      scan-update bs (set bs i changed) (slot bs i).ref o c used changed-IsTable.once changed-held
        (λ r nz ne. changed-count (has r) refl)
        (λ r x y nz ne.
          changed-count (held r x y)
            (let f : ((slot bs i).ref == r) ≡ false = ground arith in rw f refl))

-- The monitors after `tm_rehash` into `2 ^ k'` buckets, which have room for them.
pub rehash-IsValid :
    (k' k steps : ℕ) (t : MonitorTable)
    → IsTable k steps t.buckets
    → count is_used t.buckets ≡ t.entries
    → t.entries < 2 ^ k'
    → (bs' : List Monitor) × (steps' : ℕ) × (rehash_loop
          (2 ^ k')
          t.buckets
          (replicate (2 ^ k') free_monitor)
        ≡ some bs')
      × IsValid k' steps' (record t { capacity = 2 ^ k'; buckets = bs' })
      × ((r : ℕ) → scan bs' r ≡ scan t.buckets r)
rehash-IsValid k' k steps t v used room =
    let empty : (p : Test) → IsTest p → count p (replicate (2 ^ k') free_monitor) ≡ 0 =
      (λ p q. count-replicate p (2 ^ k') (q.unused free_monitor refl)) in
    let (bs', steps', e, v', c) =
      rehash_loop-IsTable k' t.buckets (replicate (2 ^ k') free_monitor) 1 (free-IsTable k')
        (λ r nz. omega (arith, v.once r nz, empty (has r) (has-IsTest r nz)))
        (omega (arith, empty is_used is_used-IsTest)) in
    let same : (p : Test) → IsTest p → count p bs' ≡ count p t.buckets =
      (λ p q. omega (arith, c p q, empty p q)) in
    (
      bs',
      steps',
      e,
      record {
        capacity = refl;
        table = v';
        entries = same is_used is_used-IsTest ∙ used;
        room = room;
      },
      λ r. elim (Bool-cases (r == 0)) [
        | inl z ↦ let e : r ≡ 0 = ground arith in rw e (scan-zero bs' ∙ sym (scan-zero t.buckets))
        | inr n ↦
            let nz : r ≢ 0 = ground arith in
            scan_congr r nz t.buckets bs' (v'.once r nz) (same (has r) (has-IsTest r nz))
              (λ o x. same (held r o x) (held-IsTest r o x nz))
      ],
    )

-- A table that stands for the same monitors as the buckets `bs`.
abbrev pub Resized : List Monitor → Entered → Type 0
Resized bs r =
    (t : MonitorTable) × (r ≡ Entered.acquired t)
    × ((k : ℕ) × (steps : ℕ) × IsValid k steps t)
    × ((x : ℕ) → monitor_of t x ≡ scan bs x)

rehash-eq :
    (grow : Bool) (t : MonitorTable) (capacity : ℕ) (bs' : List Monitor)
    → (if grow then t.capacity * 2 % 2 ^ 64 else t.capacity / 2) ≡ capacity
    → rehash_loop capacity t.buckets (replicate capacity free_monitor) ≡ some bs'
    → rehash grow t ≡ some (record t { capacity = capacity; buckets = bs' })
unfolding rehash
rehash-eq grow t capacity bs' e f = rw (rehash, e, f) (rw e refl)

half_power : (k : ℕ) → 1 < 2 ^ k → (k' : ℕ) × (2 ^ k ≡ 2 * 2 ^ k')
half_power zero h = absurd (omega arith)
half_power (suc k) h = (k, omega (arith, pow-suc 2 k))

pub resize-Resized :
    (k steps : ℕ) (t : MonitorTable)
    → t.capacity ≡ 2 ^ k
    → k < 63
    → IsTable k steps t.buckets
    → count is_used t.buckets ≡ t.entries
    → t.entries ≤ t.capacity
    → Resized t.buckets (resize t)
unfolding resize rehash monitor_of
resize-Resized k steps t two_k small v used room = elim (Bool-cases (t.entries == t.capacity)) [
  | inl full ↦
      let bound : 2 ^ k ≤ 2 ^ 62 = pow-le-pow_right (omega arith) {i = k} {j = 62} (omega arith) in
      let double : t.capacity * 2 % 2 ^ 64 ≡ 2 ^ suc k =
        rw (two_k, pow-suc 2 k) (mod-eq_of_lt (omega arith)) in
      let (bs', steps', e, v', same) =
        rehash-IsValid (suc k) k steps t v used (ground (arith, pow-suc 2 k, one-le-pow k 2)) in
      (
        record t { capacity = 2 ^ suc k; buckets = bs' },
        rw (resize, full, rehash-eq true t (2 ^ suc k) bs' double e) refl,
        (suc k, steps', v'),
        same,
      )
  | inr f ↦ elim (Bool-cases (ltb t.entries (t.capacity / 4))) [
    | inl few ↦
        let (k', halves) = half_power k (ground arith) in
        let half : t.capacity / 2 ≡ 2 ^ k' = omega arith in
        let (bs', steps', e, v', same) = rehash-IsValid k' k steps t v used (ground arith) in
        (
          record t { capacity = 2 ^ k'; buckets = bs' },
          rw (resize, f, few, rehash-eq false t (2 ^ k') bs' half e) refl,
          (k', steps', v'),
          same,
        )
    | inr g ↦ (
      t,
      rw (resize, f, g) refl,
      (k, steps, record { capacity = two_k; table = v; entries = used; room = ground arith }),
      λ x. refl,
    )
  ]
]
