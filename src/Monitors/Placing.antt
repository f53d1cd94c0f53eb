-- ===== src/Monitors/Placing.antt =====
-- The table after a monitor has been placed in a free bucket, and searches in it.
use jelatine.Common.{
  ℕ, zero, suc, ◌+◌, ◌<◌, ◌≡◌, ◌≢◌, ◌⊎◌, ap, sym, ◌∙◌, inl, inr, true, false, none, some, List,
  arith, ◌==◌, set, length, length-set, get_or-set_self, get_or-set_ne, Bool-cases,
}
use jelatine.Monitors.{Monitor, free_monitor, slot, Found, search, place}
use jelatine.Monitors.Chains.{
  search-here, search-end, search-next, step_cases, search-more, searching-zero, IsChained,
}

module _ (bs : List Monitor) (hash i : ℕ) (m : Monitor) (il : i < length bs)
    (hl : hash < length bs) where
  pub place-home : i ≡ hash → slot (place bs hash i m) i ≡ record m { next = none }
  unfolding place
  place-home e =
      let t : (i == hash) ≡ true = ground arith in
      rw (place, t) (get_or-set_self bs i (record m { next = none }) free_monitor il)

  pub place_clash : i ≢ hash → slot (place bs hash i m) i ≡ record m { next = (slot bs hash).next }
  unfolding place
  place_clash ne =
      let f : (i == hash) ≡ false = ground arith in
      rw (place, f)
        (get_or-set_ne (set bs i (record m { next = (slot bs hash).next })) hash i
            (record (slot bs hash) { next = some i }) free_monitor (λ e. ne (sym e))
          ∙ get_or-set_self bs i (record m { next = (slot bs hash).next }) free_monitor il)

  pub place-chained :
      i ≢ hash → slot (place bs hash i m) hash ≡ record (slot bs hash) { next = some i }
  unfolding place
  place-chained ne =
      let f : (i == hash) ≡ false = ground arith in
      rw (place, f)
        (get_or-set_self (set bs i (record m { next = (slot bs hash).next })) hash
          (record (slot bs hash) { next = some i }) free_monitor
          (omega (arith, length-set bs i (record m { next = (slot bs hash).next }))))

  pub place_other : (j : ℕ) → j ≢ i → j ≢ hash → slot (place bs hash i m) j ≡ slot bs j
  unfolding place
  place_other j ni nh = elim (Bool-cases (i == hash)) [
    | inl t ↦
        rw (place, t)
          (get_or-set_ne bs i j (record m { next = none }) free_monitor (λ e. ni (sym e)))
    | inr f ↦
        rw (place, f)
          (get_or-set_ne (set bs i (record m { next = (slot bs hash).next })) hash j
              (record (slot bs hash) { next = some i }) free_monitor (λ e. nh (sym e))
            ∙ get_or-set_ne bs i j (record m { next = (slot bs hash).next }) free_monitor
                (λ e. ni (sym e)))
  ]

  pub place-ref_self : (slot (place bs hash i m) i).ref ≡ m.ref
  place-ref_self = elim (Bool-cases (i == hash)) [
    | inl t ↦ ap Monitor.ref (place-home (ground arith))
    | inr f ↦ ap Monitor.ref (place_clash (ground arith))
  ]

  pub place-ref : (j : ℕ) → j ≢ i → (slot (place bs hash i m) j).ref ≡ (slot bs j).ref
  place-ref j ni = elim (Bool-cases (j == hash)) [
    | inl t ↦
        let e : j ≡ hash = ground arith in
        rw e (ap Monitor.ref (place-chained (λ h. ni (e ∙ sym h))))
    | inr f ↦ ap Monitor.ref (place_other j ni (ground arith))
  ]

  module _ (capacity steps : ℕ) (c : IsChained capacity steps bs) (free : (slot bs i).ref ≡ 0) where
    -- The search for another reference ends where it did.
    pub search-place :
        (r fuel p : ℕ) (found : Found)
        → m.ref ≢ r
        → p ≢ i
        → found ≢ Found.searching
        → search fuel bs p r ≡ found
        → search (fuel + fuel) (place bs hash i m) p r ≡ found
    search-place r zero p found nr np ns e = absurd (ns (sym e ∙ searching-zero bs p r))
    search-place r (suc fuel) p found nr np ns e =
        let s : suc fuel + suc fuel ≡ suc (suc (fuel + fuel)) = omega arith in
        let one : 1 + (fuel + fuel) ≡ suc (fuel + fuel) = omega arith in
        let same = place-ref p np in
        rw s (elim (step_cases bs p r) [
          | inl h ↦
              search-here (place bs hash i m) p r (suc (fuel + fuel)) (same ∙ h)
              ∙ sym (search-here bs p r fuel h)
              ∙ e
          | inr (inl (n, h)) ↦
              let answer = sym (search-end bs p r fuel n h) ∙ e in
              elim (Bool-cases (p == hash)) [
                | inl t ↦
                    let ph : p ≡ hash = ground arith in
                    let ne : i ≢ hash = (λ x. np (ph ∙ sym x)) in
                    search-next (place bs hash i m) p r (suc (fuel + fuel)) i
                      (λ x. n (sym same ∙ x)) (rw ph (ap Monitor.next (place-chained ne)))
                    ∙ search-end (place bs hash i m) i r (fuel + fuel)
                        (λ x. nr (sym place-ref_self ∙ x))
                        (ap Monitor.next (place_clash ne) ∙ rw ph at h)
                    ∙ answer
                | inr f ↦
                    search-end (place bs hash i m) p r (suc (fuel + fuel)) (λ x. n (sym same ∙ x))
                      (ap Monitor.next (place_other p np (ground arith)) ∙ h)
                    ∙ answer
              ]
          | inr (inr (n, k, h)) ↦
              let nk : k ≢ i = (λ x. c.links p k h (ap (λ z. (slot bs z).ref) x ∙ free)) in
              let ih =
                search-place r fuel k found nr nk ns (sym (search-next bs p r fuel k n h) ∙ e) in
              elim (Bool-cases (p == hash)) [
                | inl t ↦
                    let ph : p ≡ hash = ground arith in
                    let ne : i ≢ hash = (λ x. np (ph ∙ sym x)) in
                    search-next (place bs hash i m) p r (suc (fuel + fuel)) i
                      (λ x. n (sym same ∙ x)) (rw ph (ap Monitor.next (place-chained ne)))
                    ∙ search-next (place bs hash i m) i r (fuel + fuel) k
                        (λ x. nr (sym place-ref_self ∙ x))
                        (ap Monitor.next (place_clash ne) ∙ rw ph at h)
                    ∙ ih
                | inr f ↦
                    search-next (place bs hash i m) p r (suc (fuel + fuel)) k
                      (λ x. n (sym same ∙ x))
                      (ap Monitor.next (place_other p np (ground arith)) ∙ h)
                    ∙ rw one at (search-more (fuel + fuel) (place bs hash i m) k r found ns ih 1)
              ]
        ])

    pub free-search :
        (fuel r : ℕ)
        → r ≢ 0
        → (search fuel bs i r ≡ Found.searching) ⊎ (search fuel bs i r ≡ Found.absent)
    free-search zero r nz = inl (searching-zero bs i r)
    free-search (suc fuel) r nz =
        inr (search-end bs i r fuel (λ x. nz (sym x ∙ free)) (c.ends i free))

-- The rest of a chain along which a reference is not found.
pub search-tail :
    (bs : List Monitor) (fuel p r k : ℕ)
    → (slot bs p).ref ≢ r
    → (slot bs p).next ≡ some k
    → search fuel bs p r ≡ Found.absent
    → search fuel bs k r ≡ Found.absent
search-tail bs zero p r k n h e = let z = searching-zero bs p r in cc
search-tail bs (suc fuel) p r k n h e =
    let one : 1 + fuel ≡ suc fuel = omega arith in
    rw one at
      (search-more fuel bs k r Found.absent (λ x. cc) (sym (search-next bs p r fuel k n h) ∙ e) 1)
