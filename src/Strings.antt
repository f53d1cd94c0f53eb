-- ===== src/Strings.antt =====
-- The string manager of src/jelatine/utf8_string.c, which interns the names of the virtual machine.
-- A string is the list of its characters before the terminator, of which there are `len`, so
-- `strcmp` is equality of lists; a bucket is the list of its strings from the head on. The block
-- that `gc_palloc` returns for a new string is an argument. `signed` says whether a plain `char` is
-- signed.
pub mod Count
pub mod Table
pub mod Intern
mod Tests
use jelatine.Common.{
  ℕ, zero, suc, ◌+◌, ◌-◌, ◌*◌, ◌/◌, ◌%◌, ◌^◌, bit_and, Bool, true, false, ◌&&◌, Option, none, some,
  List, [], ◌∷◌, ltb, ◌==◌, if◌then◌else◌, get_or, set, replicate,
}
use jelatine.Utf8.{hash}

-- `struct utf8_string_t` with the address of its `data`.
pub record Interned : Type 0 where
  pub ptr : ℕ
  pub chars : List ℕ

pub record StringManager : Type 0 where
  pub load : ℕ
  pub threshold : ℕ
  pub entries : ℕ
  pub capacity : ℕ
  pub buckets : List (List Interned)

-- `1 << log2cap` shifts an `int`, so `log2cap` is below 31 here; src/jelatine/vm.c calls it with 6.
unfoldable pub manager_init : ℕ → ℕ → StringManager
manager_init log2cap load = record {
  load = load;
  threshold = 4;
  entries = 0;
  capacity = 2 ^ log2cap;
  buckets = replicate (2 ^ log2cap) [];
}

-- `strcmp(a, b) == 0`
abbrev pub same_chars : List ℕ → List ℕ → Bool
same_chars [] [] = true
same_chars [] (b ∷ bs) = false
same_chars (a ∷ as') [] = false
same_chars (a ∷ as') (b ∷ bs) = (a == b) && same_chars as' bs

-- The hash, masked to the bits that fit the capacity.
abbrev pub slot : Bool → ℕ → List ℕ → ℕ
slot signed capacity s = bit_and (hash signed s) (capacity - 1)

abbrev pub push : List (List Interned) → ℕ → Interned → List (List Interned)
push buckets i e = set buckets i (e ∷ get_or buckets i [])

-- The `while` loop of the rehash over one chain, and its `for` loop over the buckets.
unfoldable pub move_chain : Bool → ℕ → List Interned → List (List Interned) → List (List Interned)
move_chain signed capacity [] buckets = buckets
move_chain signed capacity (str ∷ next) buckets =
    move_chain signed capacity next (push buckets (slot signed capacity str.chars) str)

unfoldable pub move_all :
    Bool → ℕ → List (List Interned) → List (List Interned) → List (List Interned)
move_all signed capacity [] buckets = buckets
move_all signed capacity (chain ∷ rest) buckets =
    move_all signed capacity rest (move_chain signed capacity chain buckets)

unfoldable pub rehash : Bool → ℕ → StringManager → StringManager
rehash signed capacity sm = record sm {
  capacity = capacity;
  buckets = move_all signed capacity sm.buckets (replicate capacity []);
}

-- The search along a bucket.
unfoldable pub find : List ℕ → List Interned → Option ℕ
find src [] = none
find src (str ∷ next) =
    let rest = find src next in if same_chars str.chars src then some str.ptr else rest

-- A new string at the head of its bucket.
abbrev pub add : Bool → List ℕ → ℕ → StringManager → StringManager
add signed src fresh sm = record sm {
  entries = sm.entries + 1;
  buckets = push sm.buckets (slot signed sm.capacity src) (record { ptr = fresh; chars = src });
}

unfoldable pub intern : Bool → List ℕ → ℕ → StringManager → ℕ × StringManager
intern signed src fresh sm = elim (find src (get_or sm.buckets (slot signed sm.capacity src) [])) [
  | some ptr ↦ (ptr, sm)
  | none ↦
      let sm' = add signed src fresh sm in
      (
        fresh,
        if ltb (sm'.capacity * sm'.load % 2 ^ 64) sm'.entries
            then rehash signed (sm'.capacity * 2 % 2 ^ 64) sm'
            else sm',
      )
]
