-- ===== src/Strings/Table.antt =====
-- The string manager implements a finite map from strings to addresses.
use jelatine.Common.{
  ℕ, ◌+◌, ◌^◌, ◌≤◌, ◌<◌, ◌≡◌, inl, inr, refl, ◌∙◌, Bool, true, Option, none, some, List, [], ◌∷◌,
  arith, get_or, replicate, length, length-set, length-replicate, Option-cases,
}
use native.Mathlib.Nat.{one-le-pow, mod-lt}
use jelatine.Common.Bits.{bit_and-mask}
use jelatine.Utf8.{hash}
use jelatine.Strings.{Interned, StringManager, slot, push, move_chain, move_all, rehash, find}
use jelatine.Strings.Count.{
  same_chars_iff, Test, count, total, Placed, total-push, Placed-push, total-replicate,
  Placed-replicate, is_at, has, find-some, find-none, find-eq_some, find-eq_none, total-eq-count,
}

-- The table with an initial capacity of `2 ^ log2cap`, well formed.
pub record IsValid (signed : Bool) (log2cap : ℕ) (sm : StringManager) : Type 0 where
  pub capacity : sm.capacity ≡ 2 ^ log2cap
  pub buckets : length sm.buckets ≡ sm.capacity
  pub placed : Placed signed sm.capacity 0 sm.buckets
  pub once : (s : List ℕ) → total (has s) sm.buckets ≤ 1
  pub entries : total (λ e. true) sm.buckets ≡ sm.entries

-- The address at which a string is interned.
unfoldable pub lookup : Bool → StringManager → List ℕ → Option ℕ
lookup signed sm s = find s (get_or sm.buckets (slot signed sm.capacity s) [])

pub slot-lt : (signed : Bool) (k : ℕ) (s : List ℕ) → slot signed (2 ^ k) s < 2 ^ k
slot-lt signed k s =
    rw (bit_and-mask k (hash signed s)) (mod-lt (hash signed s) (one-le-pow k 2 (omega arith)))

module _ (signed : Bool) (k : ℕ) where
  -- Moving a chain into a table keeps every string and puts it where it belongs.
  move_chain-total :
      (p : Test) (l : List Interned) (bs : List (List Interned))
      → length bs ≡ 2 ^ k
      → (total p (move_chain signed (2 ^ k) l bs) ≡ count p l + total p bs)
        × (length (move_chain signed (2 ^ k) l bs) ≡ 2 ^ k)
  unfolding move_chain
  move_chain-total p [] bs h = (omega arith, h)
  move_chain-total p (e ∷ l) bs h =
      let i : ℕ = slot signed (2 ^ k) e.chars in
      let ih = move_chain-total p l (push bs i e) (length-set bs i (e ∷ get_or bs i []) ∙ h) in
      (omega (arith, ih.0, total-push p bs i e (rw h (slot-lt signed k e.chars))), ih.1)

  move_chain-Placed :
      (l : List Interned) (bs : List (List Interned))
      → Placed signed (2 ^ k) 0 bs
      → Placed signed (2 ^ k) 0 (move_chain signed (2 ^ k) l bs)
  unfolding move_chain
  move_chain-Placed [] bs h = h
  move_chain-Placed (e ∷ l) bs h =
      move_chain-Placed l (push bs (slot signed (2 ^ k) e.chars) e)
        (Placed-push signed (2 ^ k) 0 (slot signed (2 ^ k) e.chars) bs e (omega arith) h)

  move_all-total :
      (p : Test) (ls bs : List (List Interned))
      → length bs ≡ 2 ^ k
      → (total p (move_all signed (2 ^ k) ls bs) ≡ total p ls + total p bs)
        × (length (move_all signed (2 ^ k) ls bs) ≡ 2 ^ k)
  unfolding move_all
  move_all-total p [] bs h = (omega arith, h)
  move_all-total p (l ∷ ls) bs h =
      let moved = move_chain-total p l bs h in
      let ih = move_all-total p ls (move_chain signed (2 ^ k) l bs) moved.1 in
      (omega (arith, ih.0, moved.0), ih.1)

  move_all-Placed :
      (ls bs : List (List Interned))
      → Placed signed (2 ^ k) 0 bs
      → Placed signed (2 ^ k) 0 (move_all signed (2 ^ k) ls bs)
  unfolding move_all
  move_all-Placed [] bs h = h
  move_all-Placed (l ∷ ls) bs h =
      move_all-Placed ls (move_chain signed (2 ^ k) l bs) (move_chain-Placed l bs h)

is_at-chars : (ptr : ℕ) (s : List ℕ) (e : Interned) → is_at ptr s e ≡ true → e.chars ≡ s
is_at-chars ptr s e h = (same_chars_iff e.chars s).0 (ground arith)

module _ {signed : Bool} {k : ℕ} {sm : StringManager} (v : IsValid signed k sm) where
  in_bucket :
      (s : List ℕ) (p : Test)
      → ((e : Interned) → p e ≡ true → e.chars ≡ s)
      → total p sm.buckets ≡ count p (get_or sm.buckets (slot signed sm.capacity s) [])
  in_bucket s p only =
      total-eq-count signed sm.capacity s p only 0 (slot signed sm.capacity s) sm.buckets v.placed
        (omega arith)

  has-in_bucket :
      (s : List ℕ)
      → total (has s) sm.buckets ≡ count (has s) (get_or sm.buckets (slot signed sm.capacity s) [])
  has-in_bucket s = in_bucket s (has s) (λ e. (same_chars_iff e.chars s).0)

  -- The table holds a string at an address exactly when it is interned there.
  pub lookup-some :
      (s : List ℕ) (ptr : ℕ) → lookup signed sm s ≡ some ptr → 0 < total (is_at ptr s) sm.buckets
  unfolding lookup
  lookup-some s ptr e = rw (in_bucket s (is_at ptr s) (is_at-chars ptr s)) (find-some s _ ptr e)

  pub lookup-eq_some :
      (s : List ℕ) (ptr : ℕ) → 0 < total (is_at ptr s) sm.buckets → lookup signed sm s ≡ some ptr
  unfolding lookup
  lookup-eq_some s ptr h =
      find-eq_some s _ ptr (rw has-in_bucket at (v.once s))
        (rw (in_bucket s (is_at ptr s) (is_at-chars ptr s)) at h)

  pub lookup-none : (s : List ℕ) → lookup signed sm s ≡ none → total (has s) sm.buckets ≡ 0
  unfolding lookup
  lookup-none s e = rw (has-in_bucket s) (find-none s _ e)

  pub lookup-eq_none : (s : List ℕ) → total (has s) sm.buckets ≡ 0 → lookup signed sm s ≡ none
  unfolding lookup
  lookup-eq_none s h = find-eq_none s _ (rw (has-in_bucket s) at h)

-- Tables that hold the same strings answer alike.
pub lookup_congr :
    {signed : Bool} {k j : ℕ} {sm sm' : StringManager} (s : List ℕ)
    → IsValid signed k sm
    → IsValid signed j sm'
    → ((p : Test) → total p sm'.buckets ≡ total p sm.buckets)
    → lookup signed sm' s ≡ lookup signed sm s
lookup_congr {signed} {sm} {sm'} s v v' same = elim (Option-cases (lookup signed sm s)) [
  | inl e ↦ rw e (lookup-eq_none v' s (same (has s) ∙ lookup-none v s e))
  | inr (ptr, e) ↦ rw e (lookup-eq_some v' s ptr (rw (same (is_at ptr s)) (lookup-some v s ptr e)))
]

module _ (signed : Bool) (k : ℕ) (sm : StringManager) where
  pub rehash-total : (p : Test) → total p (rehash signed (2 ^ k) sm).buckets ≡ total p sm.buckets
  unfolding rehash
  rehash-total p = omega (
    arith,
    (move_all-total signed k p sm.buckets (replicate (2 ^ k) []) (length-replicate (2 ^ k) [])).0,
    total-replicate p (2 ^ k),
  )

  pub rehash-IsValid : {j : ℕ} → IsValid signed j sm → IsValid signed k (rehash signed (2 ^ k) sm)
  rehash-IsValid v = record {
    capacity = unfold rehash in refl;
    buckets =
        unfold rehash in
        (move_all-total signed k (λ e. true) sm.buckets (replicate (2 ^ k) [])
          (length-replicate (2 ^ k) [])).1;
    placed =
        unfold rehash in
        move_all-Placed signed k sm.buckets (replicate (2 ^ k) [])
          (Placed-replicate signed (2 ^ k) 0 (2 ^ k));
    once = λ s. rw (rehash-total (has s)) (v.once s);
    entries = rehash-total (λ e. true) ∙ v.entries ∙ unfold rehash in refl;
  }
