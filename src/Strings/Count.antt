-- ===== src/Strings/Count.antt =====
-- How many strings of the table pass a test, in which bucket they stand, and what `find` finds.
use jelatine.Common.{
  ℕ, zero, suc, ◌+◌, ◌≤◌, ◌<◌, ◌≡◌, ◌≢◌, ◌↔◌, inl, inr, refl, ap, ◌∙◌, Bool, true, ◌&&◌, none, some,
  List, [], ◌∷◌, arith, ◌==◌, if◌then◌else◌, get_or, replicate, length, All, Bool-cases, sym,
}
use jelatine.Strings.{Interned, same_chars, slot, push, find}

pub same_chars_iff : (a b : List ℕ) → (same_chars a b ≡ true) ↔ (a ≡ b)
same_chars_iff [] [] = (λ e. refl, λ e. refl)
same_chars_iff [] (b ∷ bs) = (λ e. cc, λ e. cc)
same_chars_iff (a ∷ as') [] = (λ e. cc, λ e. cc)
same_chars_iff (a ∷ as') (b ∷ bs) = ground (arith, same_chars_iff as' bs)

abbrev pub Test : Type 0
Test = Interned → Bool

abbrev pub count : Test → List Interned → ℕ
count p [] = 0
count p (e ∷ l) = (if p e then 1 else 0) + count p l

abbrev pub total : Test → List (List Interned) → ℕ
total p [] = 0
total p (l ∷ ls) = count p l + total p ls

-- Every string stands in the bucket of its hash; the first bucket is number `i`.
abbrev pub Placed : Bool → ℕ → ℕ → List (List Interned) → Type 0
Placed signed cap i [] = Unit {0}
Placed signed cap i (l ∷ ls) =
    All (λ e. slot signed cap e.chars ≡ i) l × Placed signed cap (i + 1) ls

pub total-push :
    (p : Test) (ls : List (List Interned)) (k : ℕ) (e : Interned)
    → k < length ls
    → total p (push ls k e) ≡ (if p e then 1 else 0) + total p ls
total-push p [] k e h = absurd (omega arith)
total-push p (l ∷ ls) zero e h = omega arith
total-push p (l ∷ ls) (suc k) e h = omega (arith, total-push p ls k e)

pub Placed-push :
    (signed : Bool) (cap i k : ℕ) (ls : List (List Interned)) (e : Interned)
    → slot signed cap e.chars ≡ i + k
    → Placed signed cap i ls
    → Placed signed cap i (push ls k e)
Placed-push signed cap i k [] e h pl = tt
Placed-push signed cap i zero (l ∷ ls) e h pl = ((omega arith, pl.0), pl.1)
Placed-push signed cap i (suc k) (l ∷ ls) e h pl =
    (pl.0, Placed-push signed cap (i + 1) k ls e (omega arith) pl.1)

pub total-replicate : (p : Test) (n : ℕ) → total p (replicate n []) ≡ 0
total-replicate p zero = refl
total-replicate p (suc n) = omega (arith, total-replicate p n)

pub Placed-replicate : (signed : Bool) (cap i n : ℕ) → Placed signed cap i (replicate n [])
Placed-replicate signed cap i zero = tt
Placed-replicate signed cap i (suc n) = (tt, Placed-replicate signed cap (i + 1) n)

-- The string at `ptr` with these characters, and any string with these characters.
abbrev pub is_at : ℕ → List ℕ → Test
is_at ptr s e = (e.ptr == ptr) && same_chars e.chars s

abbrev pub has : List ℕ → Test
has s e = same_chars e.chars s

pub count-is_at_le :
    (ptr : ℕ) (s : List ℕ) (l : List Interned) → count (is_at ptr s) l ≤ count (has s) l
count-is_at_le ptr s [] = omega arith
count-is_at_le ptr s (e ∷ l) = ground (arith, count-is_at_le ptr s l)

pub find-some :
    (s : List ℕ) (l : List Interned) (ptr : ℕ) → find s l ≡ some ptr → 0 < count (is_at ptr s) l
unfolding find
find-some s [] ptr e = cc
find-some s (x ∷ l) ptr e = ground (arith, find-some s l ptr)

pub find-none : (s : List ℕ) (l : List Interned) → find s l ≡ none → count (has s) l ≡ 0
unfolding find
find-none s [] e = refl
find-none s (x ∷ l) e = ground (arith, find-none s l)

pub find-eq_some :
    (s : List ℕ) (l : List Interned) (ptr : ℕ)
    → count (has s) l ≤ 1
    → 0 < count (is_at ptr s) l
    → find s l ≡ some ptr
unfolding find
find-eq_some s [] ptr u h = absurd (omega arith)
find-eq_some s (x ∷ l) ptr u h = ground (arith, count-is_at_le ptr s l, find-eq_some s l ptr)

pub find-eq_none : (s : List ℕ) (l : List Interned) → count (has s) l ≡ 0 → find s l ≡ none
unfolding find
find-eq_none s [] h = refl
find-eq_none s (x ∷ l) h = ground (arith, find-eq_none s l)

-- A test that only strings with the characters `s` pass.
module _ (signed : Bool) (cap : ℕ) (s : List ℕ) (p : Test)
    (only : (e : Interned) → p e ≡ true → e.chars ≡ s) where
  count_elsewhere :
      (i : ℕ) (l : List Interned)
      → All (λ e. slot signed cap e.chars ≡ i) l
      → slot signed cap s ≢ i
      → count p l ≡ 0
  count_elsewhere i [] h ne = refl
  count_elsewhere i (e ∷ l) h ne = elim (Bool-cases (p e)) [
    | inl t ↦ absurd (ne (ap (slot signed cap) (sym (only e t)) ∙ h.0))
    | inr f ↦ rw f (omega (arith, count_elsewhere i l h.1 ne))
  ]

  total_elsewhere :
      (i : ℕ) (ls : List (List Interned))
      → Placed signed cap i ls
      → slot signed cap s < i
      → total p ls ≡ 0
  total_elsewhere i [] h lt = refl
  total_elsewhere i (l ∷ ls) h lt =
      omega
        (arith, count_elsewhere i l h.0 (omega arith), total_elsewhere (i + 1) ls h.1 (omega arith))

  -- They are all in one bucket.
  pub total-eq-count :
      (i k : ℕ) (ls : List (List Interned))
      → Placed signed cap i ls
      → slot signed cap s ≡ i + k
      → total p ls ≡ count p (get_or ls k [])
  total-eq-count i k [] h e = refl
  total-eq-count i zero (l ∷ ls) h e = omega (arith, total_elsewhere (i + 1) ls h.1 (omega arith))
  total-eq-count i (suc k) (l ∷ ls) h e =
      omega (
        arith,
        count_elsewhere i l h.0 (omega arith),
        total-eq-count (i + 1) k ls h.1 (omega arith),
      )
