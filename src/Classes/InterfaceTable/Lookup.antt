-- ===== src/Classes/InterfaceTable/Lookup.antt =====
-- The search of INVOKEINTERFACE, src/jelatine/interpreter.c, in an ascending table.
use jelatine.Common.{
  ℕ, zero, suc, ◌+◌, ◌-◌, ◌/◌, ◌%◌, ◌^◌, ◌≤◌, ◌<◌, ◌≡◌, refl, inl, inr, true, false, some, List, [],
  ◌∷◌, ltb, ◌==◌, length, get_or, get_elem?, Bool-cases, arith,
}
use jelatine.Common.Outcome.{ok}
use jelatine.Util.Sort.{key}
use jelatine.Util.Sort.Sorted.{IsAscending}
use jelatine.Methods.{Method, unpack_index}
use jelatine.Classes.InterfaceTable.{narrow, search, lookup, invoke_interface}

narrow-up :
    (index match low high mid : ℕ)
    → mid + 1 < 2 ^ 32
    → ltb match index ≡ true
    → narrow index match low high mid ≡ (mid + 1, high)
unfolding narrow
narrow-up index match low high mid l t =
    let e : (mid + 1) % 2 ^ 32 ≡ mid + 1 = omega arith in rw (narrow, t, e) refl

narrow-down :
    (index match low high mid : ℕ)
    → 0 < mid
    → mid < 2 ^ 32
    → ltb match index ≡ false
    → narrow index match low high mid ≡ (low, mid - 1)
unfolding narrow
narrow-down index match low high mid o l t =
    let e : (mid + (2 ^ 32 - 1)) % 2 ^ 32 ≡ mid - 1 = omega arith in rw (narrow, t, e) refl

module _ (d : ℕ × Method) where
  get_elem?-in :
      (table : List (ℕ × Method)) (p : ℕ)
      → p < length table
      → get_elem? table p ≡ some (get_or table p d)
  get_elem?-in [] p l = absurd (omega arith)
  get_elem?-in (e ∷ table) zero l = refl
  get_elem?-in (e ∷ table) (suc p) l = get_elem?-in table p (omega arith)

  -- The entry at `p` has the name, and lies between the bounds.
  search-found :
      (fuel : ℕ) (table : List (ℕ × Method)) (index low high p : ℕ)
      → IsAscending d table
      → length table < 2 ^ 31
      → p < length table
      → key d table p ≡ index
      → low ≤ p
      → p ≤ high
      → high ≤ length table
      → high - low < fuel
      → (q : ℕ) × (q < length table)
        × (key d table q ≡ index)
        × (search fuel table index low high ≡ ok (get_or table q d).1)
  unfolding search
  search-found zero table index low high p up small pn e lp ph hn enough = absurd (omega arith)
  search-found (suc fuel) table index low high p up small pn e lp ph hn enough =
      let mid : ℕ = (low + high) % 2 ^ 32 / 2 in
      let found = get_or table mid d in
      let within : mid < length table = omega arith in
      let at_mid : get_elem? table mid ≡ some found = get_elem?-in table mid within in
      let next : ℕ × ℕ = narrow index found.0 low high mid in
      elim (Bool-cases (index == found.0)) [
        | inl y ↦ (mid, within, ground arith, rw (search, at_mid, y) refl)
        | inr n ↦ elim (Bool-cases (ltb found.0 index)) [
          | inl t ↦
              let behind : mid < p = elim (Bool-cases (ltb mid p)) [
                | inl b ↦ ground arith
                | inr b ↦ let c = up p mid (ground arith) within in absurd (ground arith)
              ] in
              let to : next ≡ (mid + 1, high) =
                narrow-up index found.0 low high mid (omega arith) t in
              let go : ltb high (mid + 1) ≡ false = ground arith in
              let (q, qn, e', r) =
                search-found fuel table index (mid + 1) high p up small pn e (omega arith) ph hn
                  (omega arith) in
              (q, qn, e', rw (search, at_mid, n, to, go) r)
          | inr t ↦
              let front : p < mid = elim (Bool-cases (ltb p mid)) [
                | inl b ↦ ground arith
                | inr b ↦ let c = up mid p (ground arith) pn in absurd (ground arith)
              ] in
              let to : next ≡ (low, mid - 1) =
                narrow-down index found.0 low high mid (omega arith) (omega arith) t in
              let go : ltb (mid - 1) low ≡ false = ground arith in
              let (q, qn, e', r) =
                search-found fuel table index low (mid - 1) p up small pn e lp (omega arith)
                  (omega arith) (omega arith) in
              (q, qn, e', rw (search, at_mid, n, to, go) r)
        ]
      ]

  pub lookup-found :
      (table : List (ℕ × Method)) (index p : ℕ)
      → IsAscending d table
      → length table < 2 ^ 31
      → p < length table
      → key d table p ≡ index
      → (q : ℕ) × (q < length table)
        × (key d table q ≡ index)
        × (lookup table index ≡ ok (get_or table q d).1)
  unfolding lookup
  lookup-found table index p up small pn e =
      search-found (length table + 2) table index 0 (length table) p up small pn e (omega arith)
        (omega arith) (omega arith) (omega arith)

  -- In an ascending table of less than 2 ^ 31 entries one of which has the name that is unpacked from the
  -- operand, the search of INVOKEINTERFACE ends inside the arrays and calls the method of an entry with the
  -- name.
  pub invoke_interface-found :
      (table : List (ℕ × Method)) (operand p : ℕ)
      → IsAscending d table
      → length table < 2 ^ 31
      → p < length table
      → key d table p ≡ unpack_index operand
      → (q : ℕ) × (q < length table)
        × (key d table q ≡ unpack_index operand)
        × (invoke_interface table operand ≡ ok (get_or table q d).1)
  unfolding invoke_interface
  invoke_interface-found table operand p up small pn e =
      lookup-found table (unpack_index operand) p up small pn e
