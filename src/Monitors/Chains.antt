-- ===== src/Monitors/Chains.antt =====
-- The chains through the buckets: every monitor is found from its own bucket, and the search for
-- any other reference ends.
use jelatine.Common.{
  ℕ, zero, suc, ◌+◌, ◌≡◌, ◌≢◌, ◌⊎◌, refl, ap, sym, ◌∙◌, inl, inr, true, false, none, some, List,
  arith, ◌==◌, replicate, get_or-replicate, Bool-cases, Option-cases,
}
use jelatine.Monitors.{Monitor, free_monitor, slot, home, Found, search}

module _ (bs : List Monitor) (i r : ℕ) where
  pub search-here : (fuel : ℕ) → (slot bs i).ref ≡ r → search (suc fuel) bs i r ≡ Found.at_slot i
  unfolding search
  search-here fuel e = let t : ((slot bs i).ref == r) ≡ true = ground arith in rw (search, t) refl

  pub search-end :
      (fuel : ℕ)
      → (slot bs i).ref ≢ r
      → (slot bs i).next ≡ none
      → search (suc fuel) bs i r ≡ Found.absent
  unfolding search
  search-end fuel ne e =
      let f : ((slot bs i).ref == r) ≡ false = ground arith in rw (search, f, e) refl

  pub search-next :
      (fuel k : ℕ)
      → (slot bs i).ref ≢ r
      → (slot bs i).next ≡ some k
      → search (suc fuel) bs i r ≡ search fuel bs k r
  unfolding search
  search-next fuel k ne e =
      let f : ((slot bs i).ref == r) ≡ false = ground arith in rw (search, f, e) refl

  -- Which of the three it is.
  pub step_cases :
      ((slot bs i).ref ≡ r)
      ⊎ (((slot bs i).ref ≢ r) × ((slot bs i).next ≡ none))
      ⊎ (((slot bs i).ref ≢ r) × (k : ℕ) × ((slot bs i).next ≡ some k))
  step_cases = elim (Bool-cases ((slot bs i).ref == r)) [
    | inl t ↦ inl (ground arith)
    | inr f ↦
        let ne : (slot bs i).ref ≢ r = ground arith in
        elim (Option-cases (slot bs i).next) [
          | inl e ↦ inr (inl (ne, e))
          | inr (k, e) ↦ inr (inr (ne, k, e))
        ]
  ]

pub searching-zero : (bs : List Monitor) (i r : ℕ) → search 0 bs i r ≡ Found.searching
unfolding search
searching-zero bs i r = refl

-- More fuel does not change an answer.
pub search-more :
    (fuel : ℕ) (bs : List Monitor) (i r : ℕ) (found : Found)
    → found ≢ Found.searching
    → search fuel bs i r ≡ found
    → (extra : ℕ) → search (extra + fuel) bs i r ≡ found
search-more zero bs i r found ne e extra = absurd (ne (sym e ∙ searching-zero bs i r))
search-more (suc fuel) bs i r found ne e extra =
    let s : extra + suc fuel ≡ suc (extra + fuel) = omega arith in
    rw s (elim (step_cases bs i r) [
      | inl h ↦ search-here bs i r (extra + fuel) h ∙ sym (search-here bs i r fuel h) ∙ e
      | inr (inl (n, h)) ↦
          search-end bs i r (extra + fuel) n h ∙ sym (search-end bs i r fuel n h) ∙ e
      | inr (inr (n, k, h)) ↦
          search-next bs i r (extra + fuel) k n h
          ∙ search-more fuel bs k r found ne (sym (search-next bs i r fuel k n h) ∙ e) extra
    ])

-- Where one reference is not found along a chain, no other is that is in no bucket.
pub search-absent :
    (fuel : ℕ) (bs : List Monitor) (i r r' : ℕ)
    → ((j : ℕ) → (slot bs j).ref ≢ r')
    → search fuel bs i r ≡ Found.absent
    → search fuel bs i r' ≡ Found.absent
search-absent zero bs i r r' out e = let z = searching-zero bs i r in cc
search-absent (suc fuel) bs i r r' out e = elim (step_cases bs i r) [
  | inl h ↦ let z = search-here bs i r fuel h in cc
  | inr (inl (n, h)) ↦ search-end bs i r' fuel (out i) h
  | inr (inr (n, k, h)) ↦
      search-next bs i r' fuel k (out i) h
      ∙ search-absent fuel bs k r r' out (sym (search-next bs i r fuel k n h) ∙ e)
]

-- The chains of a table of `capacity` buckets, along which the search ends in `steps` steps.
pub record IsChained (capacity steps : ℕ) (bs : List Monitor) : Type 0 where
  pub ends : (j : ℕ) → (slot bs j).ref ≡ 0 → (slot bs j).next ≡ none
  pub links : (j k : ℕ) → (slot bs j).next ≡ some k → (slot bs k).ref ≢ 0
  pub finds :
      (j : ℕ)
      → (slot bs j).ref ≢ 0
      → search steps bs (home capacity (slot bs j).ref) (slot bs j).ref ≡ Found.at_slot j
  pub misses :
      (r : ℕ)
      → r ≢ 0
      → ((j : ℕ) → (slot bs j).ref ≢ r)
      → search steps bs (home capacity r) r ≡ Found.absent

pub free-IsChained : (capacity n : ℕ) → IsChained capacity 1 (replicate n free_monitor)
free-IsChained capacity n = record {
  ends = λ j e. ap Monitor.next (get_or-replicate n j free_monitor);
  links = λ j k e. absurd (let h = ap Monitor.next (get_or-replicate n j free_monitor) in cc);
  finds = λ j ne. absurd (ne (ap Monitor.ref (get_or-replicate n j free_monitor)));
  misses = λ r nz out.
      search-end (replicate n free_monitor) (home capacity r) r 0 (out _)
        (ap Monitor.next (get_or-replicate n (home capacity r) free_monitor));
}
