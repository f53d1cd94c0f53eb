-- ===== src/Strings/Intern.antt =====
-- `utf8_intern` against the finite map that the string manager stands for.
use jelatine.Common.{
  ℕ, suc, ◌+◌, ◌*◌, ◌%◌, ◌^◌, ◌≤◌, ◌<◌, ◌≡◌, ◌⊎◌, inl, inr, refl, ◌∙◌, Bool, true, Option, none,
  some, List, [], arith, ltb, if◌then◌else◌, length-set, length-replicate, Option-cases, Bool-cases,
}
use native.Mathlib.Nat.{pow-suc, pow-le-pow_right, mod-eq_of_lt}
use jelatine.Strings.{StringManager, manager_init, same_chars, slot, rehash, add, intern}
use jelatine.Strings.Count.{
  same_chars_iff, Test, total, total-push, Placed-push, total-replicate, Placed-replicate, is_at,
  has,
}
use jelatine.Strings.Table.{
  IsValid, lookup, slot-lt, lookup-some, lookup-eq_some, lookup-none, lookup-eq_none, lookup_congr,
  rehash-total, rehash-IsValid,
}

-- `string_manager_init` sets up an empty table.
pub manager_init-IsValid :
    (signed : Bool) (log2cap load : ℕ)
    → IsValid signed log2cap (manager_init log2cap load)
      × ((s : List ℕ) → lookup signed (manager_init log2cap load) s ≡ none)
unfolding manager_init
manager_init-IsValid signed k load =
    let v : IsValid signed k (manager_init k load) = record {
      capacity = refl;
      buckets = length-replicate (2 ^ k) [];
      placed = Placed-replicate signed (2 ^ k) 0 (2 ^ k);
      once = λ s. omega (arith, total-replicate (has s) (2 ^ k));
      entries = total-replicate (λ e. true) (2 ^ k);
    } in
    (v, λ s. lookup-eq_none v s (total-replicate (has s) (2 ^ k)))

module _ {signed : Bool} {k : ℕ} {sm : StringManager} (v : IsValid signed k sm) (src : List ℕ)
    (fresh : ℕ) (new : lookup signed sm src ≡ none) where
  add-total :
      (p : Test)
      → total p (add signed src fresh sm).buckets
        ≡ (if p (record { ptr = fresh; chars = src }) then 1 else 0) + total p sm.buckets
  add-total p =
      total-push p sm.buckets (slot signed sm.capacity src) (record { ptr = fresh; chars = src })
        (rw (v.buckets, v.capacity) (slot-lt signed k src))

  add-IsValid : IsValid signed k (add signed src fresh sm)
  add-IsValid = record {
    capacity = v.capacity;
    buckets = length-set sm.buckets (slot signed sm.capacity src) _ ∙ v.buckets;
    placed =
        Placed-push signed sm.capacity 0 (slot signed sm.capacity src) sm.buckets
          (record { ptr = fresh; chars = src }) (omega arith) v.placed;
    once = λ s. elim (Bool-cases (same_chars src s)) [
      | inl t ↦
          let e : src ≡ s = (same_chars_iff src s).0 t in
          rw (add-total (has s), t) (omega (arith, lookup-none v s (rw e at new)))
      | inr f ↦ rw (add-total (has s), f) (omega (arith, v.once s))
    ];
    entries = omega (arith, add-total (λ e. true), v.entries);
  }

  add-lookup :
      (s : List ℕ)
      → lookup signed (add signed src fresh sm) s
        ≡ (if same_chars src s then some fresh else lookup signed sm s)
  add-lookup s = elim (Bool-cases (same_chars src s)) [
    | inl t ↦
        rw t
          (lookup-eq_some add-IsValid s fresh (rw (add-total (is_at fresh s)) (ground (arith, t))))
    | inr f ↦ rw f (elim (Option-cases (lookup signed sm s)) [
      | inl e ↦ rw e (
          lookup-eq_none add-IsValid s
            (rw (add-total (has s), f) (omega (arith, lookup-none v s e))))
      | inr (ptr, e) ↦ rw e (
          lookup-eq_some add-IsValid s ptr
            (rw (add-total (is_at ptr s)) (omega (arith, lookup-some v s ptr e))))
    ])
  ]

intern-old :
    (signed : Bool) (src : List ℕ) (fresh ptr : ℕ) (sm : StringManager)
    → lookup signed sm src ≡ some ptr
    → intern signed src fresh sm ≡ (ptr, sm)
unfolding intern lookup
intern-old signed src fresh ptr sm e = rw (e, intern)

intern-new :
    (signed : Bool) (src : List ℕ) (fresh : ℕ) (sm : StringManager)
    → lookup signed sm src ≡ none
    → intern signed src fresh sm ≡ (
      fresh,
      if ltb (sm.capacity * sm.load % 2 ^ 64) (sm.entries + 1)
          then rehash signed (sm.capacity * 2 % 2 ^ 64) (add signed src fresh sm)
          else add signed src fresh sm,
    )
unfolding intern lookup
intern-new signed src fresh sm e = rw (e, intern)

-- The address that a string is to get: the old one, or that of the new block.
abbrev pub address : Option ℕ → ℕ → ℕ
address none fresh = fresh
address (some ptr) fresh = ptr

double_capacity : (k : ℕ) → k < 63 → 2 ^ k * 2 % 2 ^ 64 ≡ 2 ^ suc k
double_capacity k small =
    let bound : 2 ^ k ≤ 2 ^ 62 = pow-le-pow_right (omega arith) {i = k} {j = 62} (omega arith) in
    rw (pow-suc 2 k) (mod-eq_of_lt (omega arith))

-- In a well-formed table of less than 2 ^ 63 buckets, `utf8_intern` returns the address at which
-- the string is interned, or that of the new block if it is not. The table that it leaves is well
-- formed, also when it has been rehashed; in it the string is at that address, and every other
-- string is where it was.
pub intern-lookup :
    (signed : Bool) (k : ℕ) (sm : StringManager) (src : List ℕ) (fresh : ℕ)
    → IsValid signed k sm
    → k < 63
    → ((intern signed src fresh sm).0 ≡ address (lookup signed sm src) fresh)
      × (IsValid signed k (intern signed src fresh sm).1
          ⊎ IsValid signed (suc k) (intern signed src fresh sm).1)
      × ((s : List ℕ)
          → lookup signed (intern signed src fresh sm).1 s ≡ (
              if same_chars src s then some (intern signed src fresh sm).0 else lookup signed sm s))
intern-lookup signed k sm src fresh v small = elim (Option-cases (lookup signed sm src)) [
  | inr (ptr, e) ↦ rw (intern-old signed src fresh ptr sm e) (
    rw e refl,
    inl v,
    λ s. elim (Bool-cases (same_chars src s)) [
      | inl t ↦ rw (t, ← (same_chars_iff src s).0 t) e
      | inr f ↦ rw f
    ],
  )
  | inl e ↦ rw (intern-new signed src fresh sm e) (
      rw e (elim (Bool-cases (ltb (sm.capacity * sm.load % 2 ^ 64) (sm.entries + 1))) [
        | inl full ↦
            let double : sm.capacity * 2 % 2 ^ 64 ≡ 2 ^ suc k =
              rw v.capacity (double_capacity k small) in
            let va = add-IsValid v src fresh e in
            let vr = rehash-IsValid signed (suc k) (add signed src fresh sm) va in
            rw (full, double)
              (
                refl,
                inr vr,
                λ s.
                    lookup_congr s va vr (rehash-total signed (suc k) (add signed src fresh sm))
                    ∙ add-lookup v src fresh e s,
              )
        | inr room ↦ rw room (refl, inl (add-IsValid v src fresh e), add-lookup v src fresh e)
      ]))
]
