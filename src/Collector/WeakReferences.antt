-- ===== src/Collector/WeakReferences.antt =====
-- `gc_register_weak_ref` and `gc_purge_weakref_list` of src/jelatine/memory.c: the list of weak references
-- through their `next` fields. The test of a mark reads a header, so it is an access outside an object
-- where the address is NULL. The loop unlinks as that of `jsm_purge` does (JString.Purge).
use mathlib.Core.Path.{subst}
use jelatine.Common.{
  ℕ, zero, suc, ◌+◌, ◌<◌, ◌≡◌, ◌≢◌, inl, inr, refl, ap, sym, ◌∙◌, Bool, true, false, not, ◌&&◌,
  Option, none, some, List, [], ◌∷◌, arith, ◌==◌, if◌then◌else◌, length, Bool-cases,
}
use jelatine.Common.Links.{Links, update, set_next, Chain, Fresh, Distinct, Chain-update}
use jelatine.Common.Outcome.{Outcome, ok, fault, stuck}
use jelatine.JString.Purge.{
  purge_loop, purge_bucket, step_null, step_marked, step_unmarked, survivors,
  purge_bucket-survivors,
}
use jelatine.Collector.Objects.{has}

-- The head of the list and the `next` fields behind it.
abbrev pub register_weak_ref : ℕ → ℕ → (ℕ → ℕ) → ℕ × (ℕ → ℕ)
register_weak_ref ref weakref_list next = (ref, update next ref weakref_list)

-- The loop, with the referents.
unfoldable pub weak_loop :
    ℕ → (ℕ → Bool) → Option ℕ → ℕ → Links → (ℕ → ℕ) → Outcome (Links × (ℕ → ℕ))
weak_loop zero marked prev curr s referent = stuck
weak_loop (suc fuel) marked prev curr s referent = elim (curr == 0) [
  | true ↦ ok (s, referent)
  | false ↦ elim (marked curr) [
    | true ↦ elim (referent curr == 0) [
      | true ↦ fault
      | false ↦
          weak_loop fuel marked (some curr) (s.next curr) s
            (if marked (referent curr) then referent else update referent curr 0)
    ]
    | false ↦
        let s' = set_next prev (s.next curr) s in
        weak_loop fuel marked prev (s'.next curr) s' referent
  ]
]

-- The list head `list` starts out empty, and `heap.weakref_list` is set to it.
unfoldable pub purge_weakref_list :
    ℕ → (ℕ → Bool) → ℕ → (ℕ → ℕ) → (ℕ → ℕ) → Outcome (Links × (ℕ → ℕ))
purge_weakref_list fuel marked weakref_list next referent =
    weak_loop fuel marked none weakref_list (record { head = 0; next = next }) referent

-- The loop with the referents `referent`, where the one of `jsm_purge` answers so.
erase : (ℕ → ℕ) → Option (Links × ℕ) → Outcome (Links × (ℕ → ℕ))
erase referent none = stuck
erase referent (some (s, used)) = ok (s, referent)

FreshPrev : Option ℕ → List ℕ → Type 0
FreshPrev none xs = Unit {0}
FreshPrev (some a) xs = Fresh a xs

-- The referents behind the loop: those of marked references to unmarked objects are cleared.
abbrev pub cleared : (ℕ → Bool) → List ℕ → (ℕ → ℕ) → ℕ → ℕ
cleared marked xs referent a =
    if has xs a && (marked a && not (marked (referent a))) then 0 else referent a

not_in : (a : ℕ) (xs : List ℕ) → Fresh a xs → has xs a ≡ false
unfolding has
not_in a [] f = refl
not_in a (x ∷ xs) f = let e : (x == a) ≡ false = ground arith in rw e (not_in a xs f.1)

unlinked :
    (prev : Option ℕ) (x v : ℕ) (xs : List ℕ) (s : Links)
    → FreshPrev prev (x ∷ xs)
    → Chain s.next (s.next x) xs
    → ((set_next prev v s).next x ≡ s.next x)
      × FreshPrev prev xs
      × Chain (set_next prev v s).next (s.next x) xs
unfolding FreshPrev
unlinked none x v xs s f c = (refl, tt, c)
unlinked (some a) x v xs s f c =
    let e : (x == a) ≡ false = ground arith in
    (rw e refl, f.1, Chain-update s.next a v (s.next x) xs f.1 c)

module _ (marked : ℕ → Bool) where
  weak_loop-erase :
      (xs : List ℕ) (fuel : ℕ) (prev : Option ℕ) (curr : ℕ) (s : Links) (referent : ℕ → ℕ)
      (used : ℕ)
      → length xs < fuel
      → Chain s.next curr xs
      → FreshPrev prev xs
      → Distinct xs
      → ((a : ℕ) → has xs a ≡ true → referent a ≢ 0)
      → (after : ℕ → ℕ) × (weak_loop fuel marked prev curr s referent
          ≡ erase after (purge_loop fuel marked prev curr s used))
        × ((a : ℕ) → after a ≡ cleared marked xs referent a)
  unfolding weak_loop has erase
  weak_loop-erase xs zero prev curr s referent used lt c f d nn = absurd (omega arith)
  weak_loop-erase [] (suc fuel) prev curr s referent used lt c f d nn =
      (referent, rw (c, step_null fuel marked prev 0 s used refl) refl, λ a. refl)
  weak_loop-erase (x ∷ xs) (suc fuel) prev curr s referent used lt (cx, nz, c) f d nn =
      let cz : (x == 0) ≡ false = ground arith in
      let out : has xs x ≡ false = not_in x xs d.0 in
      subst
        (λ y.
          (after : ℕ → ℕ) × (weak_loop (suc fuel) marked prev y s referent
            ≡ erase after (purge_loop (suc fuel) marked prev y s used))
          × ((a : ℕ) → after a ≡ cleared marked (x ∷ xs) referent a))
        (sym cx)
        (elim (Bool-cases (marked x)) [
          | inl t ↦
              let self : (x == x) ≡ true = ground arith in
              let rz : (referent x == 0) ≡ false = (let n = nn x (rw self refl) in ground arith) in
              let next : ℕ → ℕ = if marked (referent x) then referent else update referent x 0 in
              let others : (a : ℕ) → x ≢ a → next a ≡ referent a = (λ a ne.
                let e : (a == x) ≡ false = ground arith in
                elim (Bool-cases (marked (referent x))) [
                  | inl u ↦ rw u refl
                  | inr u ↦ rw (u, e) refl
                ]) in
              let (after, e, all) =
                weak_loop-erase xs fuel (some x) (s.next x) s next (used + 1) (omega arith) c
                  (unfold FreshPrev in d.0) d.1
                  (λ a h.
                    let ne : x ≢ a = (λ q. let b = sym h ∙ ap (has xs) (sym q) ∙ out in cc) in
                    rw (others a ne) (nn a (ground arith))) in
              (
                after,
                rw (weak_loop, cz, t, rz, step_marked fuel marked prev x s used nz t) e,
                λ a. elim (Bool-cases (x == a)) [
                  | inl q ↦
                      let same : x ≡ a = ground arith in
                      rw (← same, all x, out, self, t)
                        (elim (Bool-cases (marked (referent x))) [
                          | inl u ↦ rw u refl
                          | inr u ↦ rw (u, self) refl
                        ])
                  | inr q ↦ rw (all a, others a (ground arith), q) refl
                ],
              )
          | inr t ↦
              let s' = set_next prev (s.next x) s in
              let (keep, f', c') = unlinked prev x (s.next x) xs s f c in
              let (after, e, all) =
                weak_loop-erase xs fuel prev (s'.next x) s' referent used (omega arith) (rw keep c')
                  f' d.1 (λ a h. nn a (ground arith)) in
              (
                after,
                rw (weak_loop, cz, t, step_unmarked fuel marked prev x s used nz t) e,
                λ a. elim (Bool-cases (x == a)) [
                  | inl q ↦
                      let same : x ≡ a = ground arith in rw (← same, all x, out, t) (ground arith)
                  | inr q ↦ rw (all a, q) refl
                ],
              )
        ])

-- The purge of the list of the distinct weak references `xs`, none of which has been cleared, ends on more
-- fuel than there are references, without an access outside an object. It clears the referent of
-- every marked reference that is not marked itself, and no other. It leaves the marked references in
-- the list, in their order, when the first reference is unmarked; when the first is marked it
-- leaves the list empty.
pub purge_weakref_list-survivors :
    (marked : ℕ → Bool) (xs : List ℕ) (fuel weakref_list : ℕ) (next referent : ℕ → ℕ)
    → length xs < fuel
    → Chain next weakref_list xs
    → Distinct xs
    → ((a : ℕ) → has xs a ≡ true → referent a ≢ 0)
    → (links : Links) × (after : ℕ → ℕ) × (purge_weakref_list fuel marked weakref_list next referent
        ≡ ok (links, after))
      × Chain links.next links.head (survivors marked xs)
      × ((a : ℕ) → after a ≡ cleared marked xs referent a)
unfolding purge_weakref_list purge_bucket FreshPrev erase
purge_weakref_list-survivors marked xs fuel weakref_list next referent lt c d nn =
    let (links, done, left) = purge_bucket-survivors marked xs fuel weakref_list 0 next lt c d in
    let (after, e, all) =
      weak_loop-erase marked xs fuel none weakref_list (record { head = 0; next = next }) referent 0
        lt c tt d nn in
    (links, after, e ∙ ap (erase after) done, left, all)
