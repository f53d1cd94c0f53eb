-- ===== src/Monitors/Growing.antt =====
-- A new monitor in the table, and `tm_rehash`: both keep the other monitors, and every monitor is
-- found afterwards.
use jelatine.Common.{
  ℕ, ◌+◌, ◌/◌, ◌^◌, ◌≤◌, ◌<◌, ◌≡◌, ◌≢◌, ◌⊎◌, refl, ap, sym, ◌∙◌, inl, inr, true, false, ◌&&◌,
  Option, none, some, List, [], ◌∷◌, arith, ◌==◌, ==-refl, set, replicate, length, length-set,
  length-replicate, get_or-set_ne, Bool-cases,
}
use mathlib.Core.Path.{subst}
use jelatine.Monitors.{Monitor, free_monitor, slot, home, probe, place, rehash_loop}
use jelatine.Monitors.Slots.{
  Test, one_if, count, has, is_used, count-set, count-slot, count-replicate,
}
use jelatine.Monitors.Chains.{IsChained, free-IsChained}
use jelatine.Monitors.Rechaining.{place-IsChained}
use jelatine.Monitors.Probing.{probe-total, mask-lt}

-- A test on the monitors in use that does not look at the chain.
pub record IsTest (p : Test) : Type 0 where
  pub ignores : (m : Monitor) (n : Option ℕ) → p (record m { next = n }) ≡ p m
  pub unused : (m : Monitor) → m.ref ≡ 0 → p m ≡ false

pub has-IsTest : (r : ℕ) → r ≢ 0 → IsTest (has r)
has-IsTest r nz = record { ignores = λ m n. refl; unused = λ m e. ground arith }

pub is_used-IsTest : IsTest is_used
is_used-IsTest = record { ignores = λ m n. refl; unused = λ m e. ground arith }

-- The monitor of `r` is held `c` times by the thread `o`, or by none if that is 0.
abbrev pub held : ℕ → ℕ → ℕ → Test
held r o c m = (m.ref == r) && ((m.owner == o) && (m.count == c))

pub held-IsTest : (r o c : ℕ) → r ≢ 0 → IsTest (held r o c)
held-IsTest r o c nz = record { ignores = λ m n. refl; unused = λ m e. ground arith }

pub length-place :
    (bs : List Monitor) (hash i : ℕ) (m : Monitor) → length (place bs hash i m) ≡ length bs
unfolding place
length-place bs hash i m = elim (Bool-cases (i == hash)) [
  | inl t ↦ rw (place, t) (length-set bs i (record m { next = none }))
  | inr f ↦
      rw (place, f)
        (length-set (set bs i (record m { next = (slot bs hash).next })) hash
            (record (slot bs hash) { next = some i })
          ∙ length-set bs i (record m { next = (slot bs hash).next }))
]

pub count-place :
    (p : Test) (bs : List Monitor) (hash i : ℕ) (m : Monitor)
    → IsTest p
    → i < length bs
    → hash < length bs
    → (slot bs i).ref ≡ 0
    → count p (place bs hash i m) ≡ one_if (p m) + count p bs
unfolding place
count-place p bs hash i m t il hl free = elim (Bool-cases (i == hash)) [
  | inl e ↦
      let set_i =
        rw (t.ignores m none, t.unused (slot bs i) free) at
          (count-set p bs i (record m { next = none }) il) in
      rw (place, e) (omega (arith, set_i))
  | inr f ↦
      let m' : Monitor = record m { next = (slot bs hash).next } in
      let h' : Monitor = record (slot bs hash) { next = some i } in
      let set_i =
        rw (t.ignores m (slot bs hash).next, t.unused (slot bs i) free) at
          (count-set p bs i m' il) in
      let same = get_or-set_ne bs i hash m' free_monitor (ground arith) in
      let set_hash =
        rw (same, t.ignores (slot bs hash) (some i)) at
          (count-set p (set bs i m') hash h' (omega (arith, length-set bs i m'))) in
      rw (place, f) (omega (arith, set_i, set_hash))
]

-- What holds of the buckets while monitors are put into them.
pub record IsTable (k steps : ℕ) (bs : List Monitor) : Type 0 where
  pub buckets : length bs ≡ 2 ^ k
  pub once : (r : ℕ) → r ≢ 0 → count (has r) bs ≤ 1
  pub chained : IsChained (2 ^ k) steps bs

pub free-IsTable : (k : ℕ) → IsTable k 1 (replicate (2 ^ k) free_monitor)
free-IsTable k = record {
  buckets = length-replicate (2 ^ k) free_monitor;
  once = λ r nz.
      omega (arith, count-replicate (has r) (2 ^ k) ((has-IsTest r nz).unused free_monitor refl));
  chained = free-IsChained (2 ^ k) (2 ^ k);
}

-- One monitor more, for a reference that has none.
module _ (k steps : ℕ) (bs : List Monitor) (v : IsTable k steps bs) (ref : ℕ) (nz : ref ≢ 0)
    (new : count (has ref) bs ≡ 0) (room : count is_used bs < 2 ^ k) where
  not_in : (j : ℕ) → (slot bs j).ref ≢ ref
  not_in j x =
      let (lt, pos) =
        count-slot (has ref) bs j ((has-IsTest ref nz).unused free_monitor refl) (ground arith) in
      omega arith

  taken : {i h : ℕ} → (i ≡ h) ⊎ ((slot bs h).ref ≢ 0) → i ≢ h → (slot bs h).ref ≢ 0
  taken (inl same) ne = absurd (ne same)
  taken (inr used) ne = used

  pub record Insertion (m : Monitor) (i : ℕ) : Type 0 where
    pub found : probe (2 ^ k) (2 ^ k) bs (home (2 ^ k) ref) ≡ some i
    pub table : IsTable k (2 + (steps + steps)) (place bs (home (2 ^ k) ref) i m)
    pub counts :
        (p : Test)
        → IsTest p
        → count p (place bs (home (2 ^ k) ref) i m) ≡ one_if (p m) + count p bs

  pub insert-Insertion : (i : ℕ) × ((m : Monitor) → m.ref ≡ ref → Insertion m i)
  insert-Insertion =
      let (i, p, lt, free, clash) =
        probe-total k bs (home (2 ^ k) ref) v.buckets (mask-lt k (ref / 8)) room in
      let il : i < length bs = rw v.buckets lt in
      let hl : home (2 ^ k) ref < length bs = rw v.buckets (mask-lt k (ref / 8)) in
      (
        i,
        λ m e.
            let counts : (p : Test)
                → IsTest p
                → count p (place bs (home (2 ^ k) ref) i m) ≡ one_if (p m) + count p bs =
              (λ p t. count-place p bs (home (2 ^ k) ref) i m t il hl free) in
            record {
              found = p;
              table = record {
                buckets = length-place bs (home (2 ^ k) ref) i m ∙ v.buckets;
                once = λ r rz. elim (Bool-cases (m.ref == r)) [
                  | inl t ↦
                      let same : ref ≡ r = ground arith in
                      let c = rw t at (counts (has r) (has-IsTest r rz)) in
                      omega (arith, c, (rw same at new))
                  | inr f ↦
                      let c = rw f at (counts (has r) (has-IsTest r rz)) in
                      omega (arith, c, v.once r rz)
                ];
                chained =
                    subst
                      (λ r. IsChained (2 ^ k) (2 + (steps + steps)) (place bs (home (2 ^ k) r) i m))
                      e
                      (place-IsChained bs i (2 ^ k) steps m il
                        (subst (λ r. home (2 ^ k) r < length bs) (sym e) hl) v.chained free
                        (subst (λ r. i ≢ home (2 ^ k) r → (slot bs (home (2 ^ k) r)).ref ≢ 0)
                          (sym e) (λ ne. taken clash ne))
                        (λ x. nz (sym e ∙ x)) (λ j x. not_in j (x ∙ e)));
              };
              counts = counts;
            },
      )

-- `tm_rehash` into a table that has room for the monitors that are left.
pub rehash_loop-IsTable :
    (k : ℕ) (l bs : List Monitor) (steps : ℕ)
    → IsTable k steps bs
    → ((r : ℕ) → r ≢ 0 → count (has r) l + count (has r) bs ≤ 1)
    → count is_used l + count is_used bs < 2 ^ k
    → (bs' : List Monitor) × (steps' : ℕ) × (rehash_loop (2 ^ k) l bs ≡ some bs')
      × IsTable k steps' bs'
      × ((p : Test) → IsTest p → count p bs' ≡ count p l + count p bs)
unfolding rehash_loop
rehash_loop-IsTable k [] bs steps v once room = (bs, steps, refl, v, λ p t. omega arith)
rehash_loop-IsTable k (m ∷ l) bs steps v once room = elim (Bool-cases (m.ref == 0)) [
  | inl t ↦
      let z : m.ref ≡ 0 = ground arith in
      let (bs', steps', e, v', c) =
        rehash_loop-IsTable k l bs steps v (λ r nz. omega (arith, once r nz)) (omega arith) in
      (
        bs',
        steps',
        rw (rehash_loop, t) e,
        v',
        λ p q. omega (arith, c p q, ap one_if (q.unused m z)),
      )
  | inr f ↦
      let nz : m.ref ≢ 0 = ground arith in
      let self : (m.ref == m.ref) ≡ true = ==-refl m.ref in
      let own : one_if (m.ref == m.ref) + count (has m.ref) l + count (has m.ref) bs ≤ 1 =
        once m.ref nz in
      let own' = rw self at own in
      let new : count (has m.ref) bs ≡ 0 = omega (arith, own') in
      let used : count is_used (m ∷ l) ≡ 1 + count is_used l = rw f refl in
      let room_bs : count is_used bs < 2 ^ k = omega (arith, used) in
      let (j, put) = insert-Insertion k steps bs v m.ref nz new room_bs in
      let ins = put m refl in
      let (bs', steps', e, v', c) =
        rehash_loop-IsTable k l (place bs (home (2 ^ k) m.ref) j m) (2 + (steps + steps)) ins.table
          (λ r rz. omega (arith, once r rz, ins.counts (has r) (has-IsTest r rz)))
          (omega (arith, used, (rw f at (ins.counts is_used is_used-IsTest)))) in
      (
        bs',
        steps',
        rw (rehash_loop, f, ins.found) e,
        v',
        λ p q. omega (arith, c p q, ins.counts p q),
      )
]
