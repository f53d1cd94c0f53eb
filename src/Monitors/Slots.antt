-- ===== src/Monitors/Slots.antt =====
-- Buckets: what is in them after a change, how many pass a test, and a free one.
use jelatine.Common.{
  ℕ, zero, suc, ◌+◌, ◌≤◌, ◌<◌, ◌≡◌, refl, ap, inl, inr, Bool, true, false, List, [], ◌∷◌, arith,
  ◌==◌, if◌then◌else◌, set, replicate, length, Bool-cases,
}
use jelatine.Monitors.{Monitor, free_monitor, slot}

abbrev pub Test : Type 0
Test = Monitor → Bool

abbrev pub one_if : Bool → ℕ
one_if true = 1
one_if false = 0

-- How many buckets pass the test.
abbrev pub count : Test → List Monitor → ℕ
count p [] = 0
count p (m ∷ buckets) = one_if (p m) + count p buckets

pub count-set :
    (p : Test) (bs : List Monitor) (i : ℕ) (m : Monitor)
    → i < length bs
    → count p (set bs i m) + one_if (p (slot bs i)) ≡ count p bs + one_if (p m)
count-set p [] i m h = absurd (omega arith)
count-set p (x ∷ bs) zero m h = omega arith
count-set p (x ∷ bs) (suc i) m h = omega (arith, count-set p bs i m)

pub count-slot :
    (p : Test) (bs : List Monitor) (i : ℕ)
    → p free_monitor ≡ false
    → p (slot bs i) ≡ true
    → (i < length bs) × (0 < count p bs)
count-slot p [] i f h = absurd (ground (arith, f, h))
count-slot p (x ∷ bs) zero f h = (omega arith, rw h (omega arith))
count-slot p (x ∷ bs) (suc i) f h =
    let ih = count-slot p bs i f h in (omega (arith, ih.0), omega (arith, ih.1))

pub slot-count : (p : Test) (bs : List Monitor) → 0 < count p bs → (i : ℕ) × (p (slot bs i) ≡ true)
slot-count p [] h = absurd (omega arith)
slot-count p (x ∷ bs) h = elim (Bool-cases (p x)) [
  | inl t ↦ (0, t)
  | inr f ↦
      let h' : 0 < 0 + count p bs = rw f at h in
      let (i, e) = slot-count p bs (omega arith) in (suc i, e)
]

pub count-replicate :
    (p : Test) (n : ℕ) → p free_monitor ≡ false → count p (replicate n free_monitor) ≡ 0
count-replicate p zero h = refl
count-replicate p (suc n) h = rw (h, count-replicate p n h)

-- A monitor of the reference; a bucket in use.
abbrev pub has : ℕ → Test
has r m = m.ref == r

abbrev pub is_used : Test
is_used m = if m.ref == 0 then false else true

-- Two buckets that pass a test that one passes are the same.
pub count-once :
    (p : Test) (bs : List Monitor) (i j : ℕ)
    → p free_monitor ≡ false
    → count p bs ≤ 1
    → p (slot bs i) ≡ true
    → p (slot bs j) ≡ true
    → i ≡ j
count-once p [] i j f h a b = absurd (ground (arith, f, a))
count-once p (x ∷ bs) zero zero f h a b = refl
count-once p (x ∷ bs) zero (suc j) f h a b =
    let t = count-slot p bs j f b in
    let h' : 1 + count p bs ≤ 1 = rw a at h in absurd (omega (arith, t.1))
count-once p (x ∷ bs) (suc i) zero f h a b =
    let t = count-slot p bs i f a in
    let h' : 1 + count p bs ≤ 1 = rw b at h in absurd (omega (arith, t.1))
count-once p (x ∷ bs) (suc i) (suc j) f h a b = ap suc (count-once p bs i j f (omega arith) a b)
