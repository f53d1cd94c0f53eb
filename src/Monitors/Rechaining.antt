-- ===== src/Monitors/Rechaining.antt =====
-- A monitor that is placed in a free bucket keeps the chains.
use jelatine.Common.{
  ℕ, suc, ◌+◌, ◌<◌, ◌≡◌, ◌≢◌, ap, sym, ◌∙◌, inl, inr, none, some, List, arith, ◌==◌, length,
  Bool-cases, Option-cases,
}
use mathlib.Core.Option.{some-injective}
use mathlib.Core.Path.{subst}
use jelatine.Monitors.{Monitor, slot, home, Found, search, place}
use jelatine.Monitors.Chains.{
  search-here, search-end, search-next, search-more, search-absent, IsChained,
}
use jelatine.Monitors.Placing.{
  place-home, place_clash, place-chained, place_other, place-ref_self, place-ref, search-place,
  free-search, search-tail,
}

module _ (bs : List Monitor) (i capacity steps : ℕ) (m : Monitor) where
  abbrev hash : ℕ
  hash = home capacity m.ref

  abbrev after : List Monitor
  after = place bs (home capacity m.ref) i m

  module _ (il : i < length bs) (hl : hash < length bs) (c : IsChained capacity steps bs)
      (free : (slot bs i).ref ≡ 0) (taken : i ≢ hash → (slot bs hash).ref ≢ 0) (nz : m.ref ≢ 0)
      (out : (j : ℕ) → (slot bs j).ref ≢ m.ref) where
    after_self : (slot after i).ref ≡ m.ref
    after_self = place-ref_self bs hash i m il hl

    after_kept : (j : ℕ) → j ≢ i → (slot after j).ref ≡ (slot bs j).ref
    after_kept = place-ref bs hash i m il hl

    after_two :
        (r : ℕ) (p : ℕ) (found : Found)
        → m.ref ≢ r
        → p ≢ i
        → found ≢ Found.searching
        → search steps bs p r ≡ found
        → search (2 + (steps + steps)) after p r ≡ found
    after_two r p found nr np ns e =
        search-more (steps + steps) after p r found ns
          (search-place bs hash i m il hl capacity steps c free r steps p found nr np ns e) 2

    before_out :
        (r : ℕ) → r ≢ 0 → ((j : ℕ) → (slot after j).ref ≢ r) → (j : ℕ) → (slot bs j).ref ≢ r
    before_out r rz o j x = elim (Bool-cases (j == i)) [
      | inl t ↦ let e : j ≡ i = ground arith in rz (sym x ∙ ap (λ z. (slot bs z).ref) e ∙ free)
      | inr f ↦ o j (after_kept j (ground arith) ∙ x)
    ]

    place-ends : (j : ℕ) → (slot after j).ref ≡ 0 → (slot after j).next ≡ none
    place-ends j x = elim (Bool-cases (j == i)) [
      | inl t ↦ let e : j ≡ i = ground arith in absurd (nz (sym after_self ∙ rw e at x))
      | inr f ↦
          let ne : j ≢ i = ground arith in
          let was : (slot bs j).ref ≡ 0 = sym (after_kept j ne) ∙ x in
          elim (Bool-cases (j == hash)) [
            | inl t ↦
                let e : j ≡ hash = ground arith in
                absurd (taken (λ y. ne (e ∙ sym y)) (rw e at was))
            | inr g ↦
                ap Monitor.next (place_other bs hash i m il hl j ne (ground arith)) ∙ c.ends j was
          ]
    ]

    used_after : (k : ℕ) → (slot bs k).ref ≢ 0 → (slot after k).ref ≢ 0
    used_after k n x = elim (Bool-cases (k == i)) [
      | inl t ↦ let e : k ≡ i = ground arith in nz (sym after_self ∙ rw e at x)
      | inr f ↦ n (sym (after_kept k (ground arith)) ∙ x)
    ]

    place-links : (j k : ℕ) → (slot after j).next ≡ some k → (slot after k).ref ≢ 0
    place-links j k x = elim (Bool-cases (j == i)) [
      | inl t ↦
          let e : j ≡ i = ground arith in
          elim (Bool-cases (i == hash)) [
            | inl u ↦
                let own = ap Monitor.next (place-home bs hash i m il hl (ground arith)) in
                let x' = rw e at x in absurd (let b = sym own ∙ x' in cc)
            | inr v ↦
                let own = ap Monitor.next (place_clash bs hash i m il hl (ground arith)) in
                used_after k (c.links hash k (sym own ∙ rw e at x))
          ]
      | inr f ↦
          let ne : j ≢ i = ground arith in
          elim (Bool-cases (j == hash)) [
            | inl u ↦
                let e : j ≡ hash = ground arith in
                let own = ap Monitor.next (place-chained bs hash i m il hl (λ y. ne (e ∙ sym y))) in
                let k_i : i ≡ k = some-injective _ _ (sym own ∙ rw e at x) in
                λ z. nz (sym after_self ∙ ap (λ w. (slot after w).ref) k_i ∙ z)
            | inr v ↦ used_after k (
                c.links j k
                  (sym (ap Monitor.next (place_other bs hash i m il hl j ne (ground arith))) ∙ x))
          ]
    ]

    place-finds_new : search (2 + (steps + steps)) after hash m.ref ≡ Found.at_slot i
    place-finds_new =
        let two : 2 + (steps + steps) ≡ suc (suc (steps + steps)) = omega arith in
        rw two (elim (Bool-cases (i == hash)) [
          | inl t ↦
              subst (λ p. search (suc (suc (steps + steps))) after p m.ref ≡ Found.at_slot i)
                (ground arith) (search-here after i m.ref (suc (steps + steps)) after_self)
          | inr f ↦
              let ne : i ≢ hash = ground arith in
              search-next after hash m.ref (suc (steps + steps)) i
                (λ x. out hash (sym (after_kept hash (λ y. ne (sym y))) ∙ x))
                (ap Monitor.next (place-chained bs hash i m il hl ne))
              ∙ search-here after i m.ref (steps + steps) after_self
        ])

    place-finds :
        (j : ℕ)
        → (slot after j).ref ≢ 0
        → search (2 + (steps + steps)) after (home capacity (slot after j).ref) (slot after j).ref
          ≡ Found.at_slot j
    place-finds j x = elim (Bool-cases (j == i)) [
      | inl t ↦ let e : j ≡ i = ground arith in rw (e, after_self) place-finds_new
      | inr f ↦
          let ne : j ≢ i = ground arith in
          let was = after_kept j ne in
          let nz' : (slot bs j).ref ≢ 0 = (λ y. x (was ∙ y)) in
          let found = c.finds j nz' in
          let away : home capacity (slot bs j).ref ≢ i = (λ y.
            elim (free-search bs hash i m il hl capacity steps c free steps (slot bs j).ref nz') [
              | inl z ↦ let b = sym (rw y at found) ∙ z in cc
              | inr z ↦ let b = sym (rw y at found) ∙ z in cc
            ]) in
          rw was (
            after_two (slot bs j).ref (home capacity (slot bs j).ref) (Found.at_slot j)
              (λ y. out j (sym y)) away (λ y. cc) found)
    ]

    -- The search from the new bucket itself, which goes on along the chain that it was put in.
    place-misses_new :
        (r : ℕ)
        → r ≢ 0
        → m.ref ≢ r
        → ((j : ℕ) → (slot bs j).ref ≢ r)
        → search (2 + (steps + steps)) after i r ≡ Found.absent
    place-misses_new r rz nr o =
        let two : 2 + (steps + steps) ≡ suc (suc (steps + steps)) = omega arith in
        let other = (λ (x : (slot after i).ref ≡ r). nr (sym after_self ∙ x)) in
        rw two (elim (Bool-cases (i == hash)) [
          | inl t ↦
              search-end after i r (suc (steps + steps)) other
                (ap Monitor.next (place-home bs hash i m il hl (ground arith)))
          | inr f ↦
              let own = ap Monitor.next (place_clash bs hash i m il hl (ground arith)) in
              let chain = search-absent steps bs hash m.ref r o (c.misses m.ref nz out) in
              elim (Option-cases (slot bs hash).next) [
                | inl e ↦ search-end after i r (suc (steps + steps)) other (own ∙ e)
                | inr (k, e) ↦
                    let away : k ≢ i =
                      (λ x. c.links hash k e (ap (λ z. (slot bs z).ref) x ∙ free)) in
                    let one : 1 + (steps + steps) ≡ suc (steps + steps) = omega arith in
                    let rest =
                      search-place bs hash i m il hl capacity steps c free r steps k Found.absent nr
                        away (λ x. cc) (search-tail bs steps hash r k (o hash) e chain) in
                    search-next after i r (suc (steps + steps)) k other (own ∙ e)
                    ∙ rw one at
                        (search-more (steps + steps) after k r Found.absent (λ x. cc) rest 1)
              ]
        ])

    place-misses :
        (r : ℕ)
        → r ≢ 0
        → ((j : ℕ) → (slot after j).ref ≢ r)
        → search (2 + (steps + steps)) after (home capacity r) r ≡ Found.absent
    place-misses r rz o =
        let nr : m.ref ≢ r = (λ x. o i (after_self ∙ x)) in
        let o' = before_out r rz o in
        elim (Bool-cases (home capacity r == i)) [
          | inl t ↦ let e : home capacity r ≡ i = ground arith in rw e (place-misses_new r rz nr o')
          | inr f ↦
              after_two r (home capacity r) Found.absent nr (ground arith) (λ x. cc)
                (c.misses r rz o')
        ]

    pub place-IsChained : IsChained capacity (2 + (steps + steps)) after
    place-IsChained = record {
      ends = place-ends;
      links = place-links;
      finds = place-finds;
      misses = place-misses;
    }
