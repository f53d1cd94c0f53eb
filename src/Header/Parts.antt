-- ===== src/Header/Parts.antt =====
-- The parts of a header are kept apart.
use jelatine.Common.{
  ℕ, ◌+◌, ◌-◌, ◌*◌, ◌/◌, ◌%◌, ◌^◌, ◌<◌, ◌≡◌, refl, bit_and, bit_or, true, false, arith, ◌==◌,
}
use jelatine.Common.Bits.{bit_or-disjoint, bit_and-mask, bit_and-low, bit_or-low}
use jelatine.Header.{
  is_object, create_object, create_c, get_class, get_size, is_marked, set_mark, clear_mark,
  header_pcp_mask,
}

-- The bit operations of this file as arithmetic.
bit_and-one : (h : ℕ) → bit_and h 1 ≡ h % 2
bit_and-one h = bit_and-mask 1 h

bit_or-one : (h : ℕ) → bit_or h 1 ≡ h / 2 * 2 + 1
bit_or-one h = ground (arith, bit_or-low h 1, bit_or-disjoint 0 (h / 2) 0)

bit_and-clear : (h : ℕ) → h < 2 ^ 64 → bit_and h (2 ^ 64 - 1 - 1) ≡ h / 2 * 2
bit_and-clear h k = ground (arith, bit_and-low h (2 ^ 64 - 1 - 1), bit_and-mask 63 (h / 2))

bit_and-pcp : (h : ℕ) → h < 2 ^ 64 → bit_and h header_pcp_mask ≡ h / 4 * 4
bit_and-pcp h k = ground (
  arith,
  bit_and-low h header_pcp_mask,
  bit_and-low (h / 2) (header_pcp_mask / 2),
  bit_and-mask 62 (h / 2 / 2),
)

is_marked-eq : (h : ℕ) → is_marked h ≡ (h % 2 == 1)
unfolding is_marked
is_marked-eq h = let e : h / 1 ≡ h = omega arith in rw (e, bit_and-one h) refl

is_object-eq : (h : ℕ) → is_object h ≡ (h / 2 % 2 == 1)
unfolding is_object
is_object-eq h = rw (bit_and-one (h / 2)) refl

set_mark-eq : (h : ℕ) → set_mark h ≡ h / 2 * 2 + 1
unfolding set_mark
set_mark-eq h = bit_or-one h

clear_mark-eq : (h : ℕ) → h < 2 ^ 64 → clear_mark h ≡ h / 2 * 2
unfolding clear_mark
clear_mark-eq h k = bit_and-clear h k

get_class-eq : (h : ℕ) → h < 2 ^ 64 → get_class h ≡ h / 4 * 4
unfolding get_class
get_class-eq h k = bit_and-pcp h k

create_object-eq : (cl : ℕ) → cl % 4 ≡ 0 → create_object cl ≡ cl + 2
unfolding create_object
create_object-eq cl h = ground (arith, bit_or-low cl 2, bit_or-one (cl / 2))

-- The header of a Java object, for an aligned class address below 2 ^ 64, is that of an object,
-- unmarked, and gives the class back.
get_class-create_object :
    (cl : ℕ)
    → cl < 2 ^ 64
    → cl % 4 ≡ 0
    → (is_object (create_object cl) ≡ true)
      × (is_marked (create_object cl) ≡ false)
      × (get_class (create_object cl) ≡ cl)
get_class-create_object cl k h =
    rw
      (
        create_object-eq cl h,
        is_object-eq (cl + 2),
        is_marked-eq (cl + 2),
        get_class-eq (cl + 2) (omega arith),
      )
      (ground arith, ground arith, omega arith)

-- The header of a C object, for an aligned size below 2 ^ 64, is not that of a Java object, is marked,
-- and gives the size back.
get_size-create_c :
    (size : ℕ)
    → size < 2 ^ 64
    → size % 4 ≡ 0
    → (is_object (create_c size) ≡ false)
      × (is_marked (create_c size) ≡ true)
      × (get_size (create_c size) ≡ size)
get_size-create_c size k h =
    let e : create_c size ≡ size + 1 = unfold create_c in omega (arith, bit_or-one size) in
    let pcp : get_size (size + 1) ≡ (size + 1) / 4 * 4 =
      unfold get_size in bit_and-pcp (size + 1) (omega arith) in
    rw (e, is_object-eq (size + 1), is_marked-eq (size + 1), pcp)
      (ground arith, ground arith, omega arith)

-- Setting the mark bit of a header, a word below 2 ^ 64, and clearing it, changes no other part of
-- it, and clearing takes back the setting.
pub set_mark-clear_mark :
    (h : ℕ)
    → h < 2 ^ 64
    → ((is_marked (set_mark h) ≡ true)
        × (is_object (set_mark h) ≡ is_object h)
        × (get_class (set_mark h) ≡ get_class h))
      × ((is_marked (clear_mark h) ≡ false)
          × (is_object (clear_mark h) ≡ is_object h)
          × (get_class (clear_mark h) ≡ get_class h))
      × (clear_mark (set_mark h) ≡ clear_mark h)
set_mark-clear_mark h k =
    let s : h / 2 * 2 + 1 < 2 ^ 64 = omega arith in
    let c : h / 2 * 2 < 2 ^ 64 = omega arith in
    let half : (h / 2 * 2 + 1) / 2 ≡ h / 2 = omega arith in
    let half' : h / 2 * 2 / 2 ≡ h / 2 = omega arith in
    rw
      (
        set_mark-eq h,
        clear_mark-eq h k,
        is_marked-eq (h / 2 * 2 + 1),
        is_marked-eq (h / 2 * 2),
        is_object-eq (h / 2 * 2 + 1),
        is_object-eq (h / 2 * 2),
        is_object-eq h,
        get_class-eq (h / 2 * 2 + 1) s,
        get_class-eq (h / 2 * 2) c,
        get_class-eq h k,
        clear_mark-eq (h / 2 * 2 + 1) s,
        half,
        half',
      )
      ((ground arith, refl, omega arith), (ground arith, refl, omega arith), refl)

-- For an aligned class address and an aligned size, both below 2 ^ 64: the header of a Java object is
-- that of an object, unmarked, and gives the class back; the header of a C object is not that of a Java
-- object, is marked, and gives the size back.
pub created_headers :
    (cl size : ℕ)
    → cl < 2 ^ 64
    → cl % 4 ≡ 0
    → size < 2 ^ 64
    → size % 4 ≡ 0
    → ((is_object (create_object cl) ≡ true)
        × (is_marked (create_object cl) ≡ false)
        × (get_class (create_object cl) ≡ cl))
      × ((is_object (create_c size) ≡ false)
          × (is_marked (create_c size) ≡ true)
          × (get_size (create_c size) ≡ size))
created_headers cl size a b c d = (get_class-create_object cl a b, get_size-create_c size c d)

-- Setting the mark bit keeps a header a header of the same object, and setting it again changes nothing.
pub set_mark_keeps :
    (h : ℕ)
    → h < 2 ^ 64
    → (is_marked (set_mark h) ≡ true)
      × (is_object (set_mark h) ≡ is_object h)
      × (get_class (set_mark h) ≡ get_class h)
      × (set_mark (set_mark h) ≡ set_mark h)
      × (set_mark h < 2 ^ 64)
set_mark_keeps h k =
    let (marked, object, class) = (set_mark-clear_mark h k).0 in
    (
      marked,
      object,
      class,
      rw (set_mark-eq h, set_mark-eq (h / 2 * 2 + 1)) (omega arith),
      rw (set_mark-eq h) (omega arith),
    )
