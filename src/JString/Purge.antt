-- ===== src/JString/Purge.antt =====
-- `jsm_purge`: the unmarked strings leave the table of interned strings.
use jelatine.Common.{
  ℕ, zero, suc, ◌+◌, ◌<◌, ◌≡◌, ◌≢◌, refl, ap, sym, ◌∙◌, inl, inr, Bool, true, false, Option, none,
  some, List, [], ◌∷◌, arith, ◌==◌, if◌then◌else◌, Bool-cases, length,
}
use jelatine.Common.Links.{Links, set_next, Chain, Fresh, Distinct, Chain-update, select}

-- The `while` loop over one bucket: the links and the count of marked strings afterwards, or `none`
-- if the fuel is used up.
pub purge_loop : ℕ → (ℕ → Bool) → Option ℕ → ℕ → Links → ℕ → Option (Links × ℕ)
purge_loop zero marked prev curr s used = none
purge_loop (suc fuel) marked prev curr s used = elim (curr == 0) [
  | true ↦ some (s, used)
  | false ↦ elim (marked curr) [
    | true ↦ purge_loop fuel marked (some curr) (s.next curr) s (used + 1)
    | false ↦
        let s' = set_next prev (s.next curr) s in purge_loop fuel marked prev (s'.next curr) s' used
  ]
]

-- One round of the `for` loop: the list head starts out empty, and the bucket is set to it.
unfoldable pub purge_bucket : ℕ → (ℕ → Bool) → ℕ → (ℕ → ℕ) → ℕ → Option (Links × ℕ)
unfolding purge_loop
purge_bucket fuel marked bucket next used =
    purge_loop fuel marked none bucket (record { head = 0; next = next }) used

module _ (fuel : ℕ) (marked : ℕ → Bool) (prev : Option ℕ) (curr : ℕ) (s : Links) (used : ℕ) where
  pub step_null : curr ≡ 0 → purge_loop (suc fuel) marked prev curr s used ≡ some (s, used)
  unfolding purge_loop
  step_null e = ground arith

  pub step_marked :
      curr ≢ 0
      → marked curr ≡ true
      → purge_loop (suc fuel) marked prev curr s used
        ≡ purge_loop fuel marked (some curr) (s.next curr) s (used + 1)
  unfolding purge_loop
  step_marked ne t = ground arith

  pub step_unmarked :
      curr ≢ 0
      → marked curr ≡ false
      → purge_loop (suc fuel) marked prev curr s used
        ≡ purge_loop fuel marked prev
            ((set_next prev (s.next curr) s).next curr)
            (set_next prev (s.next curr) s)
            used
  unfolding purge_loop
  step_unmarked ne t = ground arith

-- What the loop leaves behind, with the list of the marked strings starting at `first`.
record Purged (marked : ℕ → Bool) (xs : List ℕ) (used : ℕ) (r : Option (Links × ℕ)) : Type 0 where
  links : Links
  done : r ≡ some (links, used + length (select marked xs))

-- Behind a marked string `m` the loop unlinks exactly the unmarked ones.
record Behind (marked : ℕ → Bool) (xs : List ℕ) (m : ℕ) (s links : Links) : Type 0 where
  head : links.head ≡ s.head
  chain : Chain links.next (links.next m) (select marked xs)
  others : (a : ℕ) → a ≢ m → Fresh a xs → links.next a ≡ s.next a

purge_loop-some :
    (marked : ℕ → Bool) (xs : List ℕ) (fuel m curr used : ℕ) (s : Links)
    → length xs < fuel
    → s.next m ≡ curr
    → Chain s.next curr xs
    → Fresh m xs
    → Distinct xs
    → (p : Purged marked xs used (purge_loop fuel marked (some m) curr s used)) × Behind marked xs m
        s p.links
purge_loop-some marked xs zero m curr used s f e c fr d = absurd (omega arith)
purge_loop-some marked [] (suc fuel) m curr used s f e c fr d = (
  record {
    links = s;
    done = step_null fuel marked (some m) curr s used c ∙ ap (λ n. some (s, n)) (omega arith);
  },
  record { head = refl; chain = e ∙ c; others = λ a ne fa. refl },
)
purge_loop-some marked (x ∷ xs) (suc fuel) m curr used s f e (cx, nz, c) fr d =
    elim (Bool-cases (marked x)) [
      | inl t ↦
          let (p, b) =
            purge_loop-some marked xs fuel x (s.next x) (used + 1) s (omega arith) refl c d.0 d.1 in
          let count : used + 1 + length (select marked xs)
              ≡ used + length (select marked (x ∷ xs)) =
            rw t (omega arith) in
          (
            record {
              links = p.links;
              done = rw cx (
                  step_marked fuel marked (some m) x s used nz t
                  ∙ p.done
                  ∙ ap (λ n. some (p.links, n)) count);
            },
            record {
              head = b.head;
              chain = rw t (b.others m fr.0 fr.1 ∙ e ∙ cx, nz, b.chain);
              others = λ a ne fa. b.others a fa.0 fa.1;
            },
          )
      | inr t ↦
          let s' = set_next (some m) (s.next x) s in
          let at : s'.next m ≡ s.next x = ground arith in
          let keep : s'.next x ≡ s.next x = ground arith in
          let rest : Chain s'.next (s'.next x) xs =
            rw keep (Chain-update s.next m (s.next x) (s.next x) xs fr.1 c) in
          let (p, b) =
            purge_loop-some marked xs fuel m (s'.next x) used s' (omega arith) (at ∙ sym keep) rest
              fr.1 d.1 in
          (
            record {
              links = p.links;
              done = rw (cx, t) (step_unmarked fuel marked (some m) x s used nz t ∙ p.done);
            },
            record {
              head = b.head;
              chain = rw t b.chain;
              others = λ a ne fa. b.others a ne fa.1 ∙ ground arith;
            },
          )
    ]

-- Once `list.next` is the current string the loop unlinks exactly the unmarked ones.
purge_loop-sync :
    (marked : ℕ → Bool) (xs : List ℕ) (fuel curr used : ℕ) (s : Links)
    → length xs < fuel
    → s.head ≡ curr
    → Chain s.next curr xs
    → Distinct xs
    → (p : Purged marked xs used (purge_loop fuel marked none curr s used)) × Chain p.links.next
        p.links.head
        (select marked xs)
purge_loop-sync marked xs zero curr used s f e c d = absurd (omega arith)
purge_loop-sync marked [] (suc fuel) curr used s f e c d = (
  record {
    links = s;
    done = step_null fuel marked none curr s used c ∙ ap (λ n. some (s, n)) (omega arith);
  },
  e ∙ c,
)
purge_loop-sync marked (x ∷ xs) (suc fuel) curr used s f e (cx, nz, c) d =
    elim (Bool-cases (marked x)) [
      | inl t ↦
          let (p, b) =
            purge_loop-some marked xs fuel x (s.next x) (used + 1) s (omega arith) refl c d.0 d.1 in
          let count : used + 1 + length (select marked xs)
              ≡ used + length (select marked (x ∷ xs)) =
            rw t (omega arith) in
          (
            record {
              links = p.links;
              done = rw cx (
                  step_marked fuel marked none x s used nz t
                  ∙ p.done
                  ∙ ap (λ n. some (p.links, n)) count);
            },
            rw t (b.head ∙ e ∙ cx, nz, b.chain),
          )
      | inr t ↦
          let s' = set_next none (s.next x) s in
          let (p, chain) =
            purge_loop-sync marked xs fuel (s.next x) used s' (omega arith) refl c d.1 in
          (
            record {
              links = p.links;
              done = rw (cx, t) (step_unmarked fuel marked none x s used nz t ∙ p.done);
            },
            rw t chain,
          )
    ]

-- What a bucket holds after the purge.
unfoldable pub survivors : (ℕ → Bool) → List ℕ → List ℕ
survivors marked [] = []
survivors marked (x ∷ xs) = if marked x then [] else select marked xs

-- The purge of one bucket, a linked list of the distinct strings `xs`, ends on more fuel than there
-- are strings, counts the marked strings of the bucket, and leaves the marked strings in the bucket
-- in their order when the first string is unmarked. When the first string is marked it leaves the
-- bucket empty.
pub purge_bucket-survivors :
    (marked : ℕ → Bool) (xs : List ℕ) (fuel bucket used : ℕ) (next : ℕ → ℕ)
    → length xs < fuel
    → Chain next bucket xs
    → Distinct xs
    → (links : Links) × (purge_bucket fuel marked bucket next used
        ≡ some (links, used + length (select marked xs)))
      × Chain links.next links.head (survivors marked xs)
unfolding purge_bucket survivors
purge_bucket-survivors marked xs zero bucket used next f c d = absurd (omega arith)
purge_bucket-survivors marked [] (suc fuel) bucket used next f c d =
    let s : Links = record { head = 0; next = next } in
    (s, step_null fuel marked none bucket s used c ∙ ap (λ n. some (s, n)) (omega arith), refl)
purge_bucket-survivors marked (x ∷ xs) (suc fuel) bucket used next f (cx, nz, c) d =
    let s : Links = record { head = 0; next = next } in
    elim (Bool-cases (marked x)) [
      | inl t ↦
          let (p, b) =
            purge_loop-some marked xs fuel x (next x) (used + 1) s (omega arith) refl c d.0 d.1 in
          let count : used + 1 + length (select marked xs)
              ≡ used + length (select marked (x ∷ xs)) =
            rw t (omega arith) in
          (
            p.links,
            rw cx (
                step_marked fuel marked none x s used nz t
                ∙ p.done
                ∙ ap (λ n. some (p.links, n)) count),
            rw t b.head,
          )
      | inr t ↦
          let s' = set_next none (next x) s in
          let (p, chain) =
            purge_loop-sync marked xs fuel (next x) used s' (omega arith) refl c d.1 in
          (p.links, rw (cx, t) (step_unmarked fuel marked none x s used nz t ∙ p.done), rw t chain)
    ]
