-- ===== src/Common/Links.antt =====
-- Singly linked lists through a `next` field of objects, with a local list head as in
-- `T list; prev = &list;`. An address is a number, and 0 is NULL.
use jelatine.Common.Tests.{◌==◌, if◌then◌else◌}
use jelatine.Common.Arrays.{All}
use Prim.Native.Nat.{ℕ}
use mathlib.Core.Path.{◌≡◌}
use mathlib.Core.Logic.{◌≢◌}
use mathlib.Core.Bool.{Bool, false}
use mathlib.Core.Option.{Option, none, some}
use mathlib.Core.List.{List, [], ◌∷◌}
use native.Mathlib.Omega.{arith}

-- The `next` fields of the objects, and the one of the local variable `list`.
pub record Links : Type 0 where
  pub head : ℕ
  pub next : ℕ → ℕ

abbrev pub update : (ℕ → ℕ) → ℕ → ℕ → ℕ → ℕ
update f a v x = if x == a then v else f x

-- `prev->next = v`, where `none` is `&list`.
abbrev pub set_next : Option ℕ → ℕ → Links → Links
set_next none v s = record s { head = v }
set_next (some a) v s = record s { next = update s.next a v }

-- From `p` the objects of the list follow one another, and the last one's `next` is NULL.
abbrev pub Chain : (ℕ → ℕ) → ℕ → List ℕ → Type 0
Chain next p [] = p ≡ 0
Chain next p (x ∷ xs) = (p ≡ x) × (x ≢ 0) × Chain next (next x) xs

abbrev pub Fresh : ℕ → List ℕ → Type 0
Fresh a xs = All (λ x. a ≢ x) xs

abbrev pub Distinct : List ℕ → Type 0
Distinct [] = Unit {0}
Distinct (x ∷ xs) = Fresh x xs × Distinct xs

pub Chain-update :
    (next : ℕ → ℕ) (a v p : ℕ) (xs : List ℕ)
    → Fresh a xs
    → Chain next p xs
    → Chain (update next a v) p xs
Chain-update next a v p [] f c = c
Chain-update next a v p (x ∷ xs) f c =
    let e : (x == a) ≡ false = ground arith in
    (c.0, c.1, rw e (Chain-update next a v (next x) xs f.1 c.2))

-- The elements that pass a test, in order.
abbrev pub select : (ℕ → Bool) → List ℕ → List ℕ
select p [] = []
select p (x ∷ xs) = if p x then x ∷ select p xs else select p xs
