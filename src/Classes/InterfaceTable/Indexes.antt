-- ===== src/Classes/InterfaceTable/Indexes.antt =====
-- The indexes that `assign_interface_indexes` of src/jelatine/loader.c gives.
use jelatine.Common.{
  ℕ, zero, suc, ◌+◌, ◌%◌, ◌^◌, ◌≤◌, ◌<◌, ◌≡◌, ap, some, List, [], ◌∷◌, length, get_elem?, arith,
}
use mathlib.Core.Option.{some-injective}
use jelatine.Methods.{Method}
use jelatine.Classes.Dispatch.{set_index}
use jelatine.Classes.InterfaceTable.{assign_interface_indexes}

-- Behind one more method.
in_turn :
    (x : Method) (methods : List Method) (next : ℕ)
    → next < 2 ^ 16
    → ((k : ℕ) (m : Method) → get_elem? methods k ≡ some m → m.index ≡ next + 1 + k)
    → (k : ℕ) (m : Method) → get_elem? (set_index next x ∷ methods) k ≡ some m
    → m.index ≡ next + k
in_turn x methods next l rest zero m e =
    let i = ap (λ (z : Method). z.index) (some-injective _ _ e) in omega arith
in_turn x methods next l rest (suc k) m e = let i = rest k m e in omega arith

-- While they fit 16 bits, the indexes follow one another from the counter on, which ends behind them.
pub assign_interface_indexes_lem :
    (methods : List Method) (next : ℕ)
    → next + length methods ≤ 2 ^ 16
    → ((assign_interface_indexes methods next).1 ≡ next + length methods)
      × ((k : ℕ) (m : Method)
          → get_elem? (assign_interface_indexes methods next).0 k ≡ some m
          → m.index ≡ next + k)
unfolding assign_interface_indexes
assign_interface_indexes_lem [] next l = (omega arith, λ k m e. absurd (let a = e in cc))
assign_interface_indexes_lem (x ∷ methods) next l =
    let e : (next + 1) % 2 ^ 32 ≡ next + 1 = omega arith in
    let (last, rest) =
      assign_interface_indexes_lem methods ((next + 1) % 2 ^ 32) (omega (arith, e)) in
    (
      omega (arith, last, e),
      in_turn x _ next (omega arith) (λ k m h. let i = rest k m h in omega (arith, i, e)),
    )
