-- ===== src/Classes/Layout.antt =====
-- The layout of the instance fields of a class, `layout_fields` of src/jelatine/loader.c, where a pointer
-- has 8 bytes. References stand in front of the header, the other fields behind it. Sizes and offsets are
-- `uint32_t`; a class has less than 2 ^ 16 fields, so that none of the sums wraps. The offset of
-- a field is an `int16_t`, given by its 16 bits; that of a field of bit size counts bits. The loops
-- visit the instance fields (Fields.Iteration).
pub mod Sums
pub mod Blocks
pub mod Packing
pub mod Slots
pub mod Bounds
mod Tests
use jelatine.Common.{
  ℕ, ◌+◌, ◌-◌, ◌*◌, ◌/◌, ◌%◌, ◌^◌, Bool, true, false, not, ◌&&◌, ◌||◌, Option, none, some, List, [],
  ◌∷◌, ltb, ◌==◌, if◌then◌else◌,
}
use jelatine.Util.{size_ceil}
use jelatine.Strings.{same_chars}
use jelatine.Descriptor.{at_place}
use jelatine.Fields.{Field, field_is_static}

-- The cases of the `switch`, with those of 64-bit pointers.
pub data Kind : Type 0 where
  ref : Kind
  bits : Kind
  bytes : Kind
  shorts : Kind
  ints : Kind
  longs : Kind

abbrev pub vm_pointer : List ℕ
vm_pointer =
    76 ∷ 106 ∷ 101 ∷ 108 ∷ 97 ∷ 116 ∷ 105 ∷ 110 ∷ 101 ∷ 47 ∷ 86 ∷ 77 ∷ 80 ∷ 111 ∷ 105 ∷ 110 ∷ 116
    ∷ 101 ∷ 114 ∷ 59 ∷ []

-- The first switch; `none` is `dbg_unreachable`.
unfoldable pub kind : Bool → List ℕ → Option Kind
kind fp descriptor =
    let c = at_place descriptor in
    if (c == 91) || (c == 76)
    then some (if same_chars descriptor vm_pointer then Kind.longs else Kind.ref)
    else if c == 66
    then some Kind.bytes
    else if c == 90
    then some Kind.bits
    else if (c == 67) || (c == 83)
    then some Kind.shorts
    else if (c == 73) || (fp && (c == 70))
    then some Kind.ints
    else if (c == 74) || (fp && (c == 68))
    then some Kind.longs
    else none

pub record Sizes : Type 0 where
  pub ref_n : ℕ
  pub bit_size : ℕ
  pub byte_size : ℕ
  pub short_size : ℕ
  pub int_size : ℕ
  pub long_size : ℕ

abbrev pub no_sizes : Sizes
no_sizes = record {
  ref_n = 0;
  bit_size = 0;
  byte_size = 0;
  short_size = 0;
  int_size = 0;
  long_size = 0;
}

abbrev pub count_kind : Kind → Sizes → Sizes
count_kind Kind.ref s = record s { ref_n = s.ref_n + 1 }
count_kind Kind.bits s = record s { bit_size = s.bit_size + 1 }
count_kind Kind.bytes s = record s { byte_size = s.byte_size + 1 }
count_kind Kind.shorts s = record s { short_size = s.short_size + 2 }
count_kind Kind.ints s = record s { int_size = s.int_size + 4 }
count_kind Kind.longs s = record s { long_size = s.long_size + 8 }

-- The first loop; `none` is `dbg_unreachable`.
unfoldable pub count_fields : Bool → List Field → Sizes → Option Sizes
count_fields fp [] s = some s
count_fields fp (field ∷ fields) s = elim (field_is_static field) [
  | true ↦ count_fields fp fields s
  | false ↦ elim (kind fp field.descriptor) [
    | none ↦ none
    | some k ↦ count_fields fp fields (count_kind k s)
  ]
]

-- The offsets of the next field of each kind.
pub record Offsets : Type 0 where
  pub ref_offset : ℕ
  pub bit_offset : ℕ
  pub byte_offset : ℕ
  pub short_offset : ℕ
  pub int_offset : ℕ
  pub long_offset : ℕ

-- The second switch.
unfoldable pub offset_kind : Bool → List ℕ → Option Kind
offset_kind fp descriptor =
    let c = at_place descriptor in
    if (c == 91) || (c == 76)
    then some (if same_chars descriptor vm_pointer then Kind.longs else Kind.ref)
    else if c == 66
    then some Kind.bytes
    else if c == 90
    then some Kind.bits
    else if (c == 67) || (c == 83)
    then some Kind.shorts
    else if (c == 73) || (fp && (c == 70))
    then some Kind.ints
    else if (c == 74) || (fp && (c == 68))
    then some Kind.longs
    else none

-- The offset of a field, before it is cut to 16 bits; that of a reference is negative.
abbrev pub offset : Kind → Offsets → ℕ
offset Kind.ref o = 2 ^ 64 - (o.ref_offset + 1) * 8
offset Kind.bits o = o.bit_offset
offset Kind.bytes o = o.byte_offset
offset Kind.shorts o = o.short_offset
offset Kind.ints o = o.int_offset
offset Kind.longs o = o.long_offset

abbrev pub advance : Kind → Offsets → Offsets
advance Kind.ref o = record o { ref_offset = o.ref_offset + 1 }
advance Kind.bits o = record o { bit_offset = o.bit_offset + 1 }
advance Kind.bytes o = record o { byte_offset = o.byte_offset + 1 }
advance Kind.shorts o = record o { short_offset = o.short_offset + 2 }
advance Kind.ints o = record o { int_offset = o.int_offset + 4 }
advance Kind.longs o = record o { long_offset = o.long_offset + 8 }

-- The second loop: the fields with their offsets, and the offsets that are left.
unfoldable pub assign_offsets : Bool → List Field → Offsets → Option (List Field × Offsets)
assign_offsets fp [] o = some ([], o)
assign_offsets fp (field ∷ fields) o = elim (field_is_static field) [
  | true ↦ elim (assign_offsets fp fields o) [
    | none ↦ none
    | some (rest, last) ↦ some (field ∷ rest, last)
  ]
  | false ↦ elim (offset_kind fp field.descriptor) [
    | none ↦ none
    | some k ↦ elim (assign_offsets fp fields (advance k o)) [
      | none ↦ none
      | some (rest, last) ↦ some (record field { offset = offset k o % 2 ^ 16 } ∷ rest, last)
    ]
  ]
]

-- The size of the parent's part, rounded up for what follows.
unfoldable pub parent_size : ℕ → Sizes → ℕ
parent_size par_nref_size s =
    if not (s.long_size == 0)
    then size_ceil par_nref_size 8
    else if not (s.int_size == 0)
    then size_ceil par_nref_size 4
    else if not (s.short_size == 0)
    then size_ceil par_nref_size 2
    else par_nref_size

abbrev pub new_size : ℕ → Sizes → ℕ
new_size par s = par + s.long_size + s.int_size + s.short_size + s.byte_size + (s.bit_size + 7) / 8

abbrev pub first_offsets : ℕ → ℕ → Sizes → Offsets
first_offsets par_ref_n par s = record {
  ref_offset = par_ref_n;
  long_offset = par + 8;
  int_offset = par + 8 + s.long_size;
  short_offset = par + 8 + s.long_size + s.int_size;
  byte_offset = par + 8 + s.long_size + s.int_size + s.short_size;
  bit_offset = (par + 8 + s.long_size + s.int_size + s.short_size + s.byte_size) * 2 ^ 3;
}

-- A class that is laid out, with its fields, the number of references and the size of the rest, or
-- the error that is thrown.
pub data Laid : Type 0 where
  laid : List Field → ℕ → ℕ → Laid
  too_large : Laid
  too_many_refs : Laid
  too_many_bits : Laid
  unreachable : Laid

abbrev pub reference_class : List ℕ
reference_class =
    106 ∷ 97 ∷ 118 ∷ 97 ∷ 47 ∷ 108 ∷ 97 ∷ 110 ∷ 103 ∷ 47 ∷ 114 ∷ 101 ∷ 102 ∷ 47 ∷ 82 ∷ 101 ∷ 102
    ∷ 101 ∷ 114 ∷ 101 ∷ 110 ∷ 99 ∷ 101 ∷ []

abbrev pub patch_first : List Field → List Field
patch_first [] = []
patch_first (field ∷ fields) = record field { offset = 8 } ∷ fields

-- Behind the second loop; the class of references is patched.
unfoldable pub laid_out : List ℕ → ℕ → ℕ → List Field × Offsets → Laid
laid_out name ref_n nref_size (fields, o) =
    if ltb 32767 o.bit_offset
    then Laid.too_many_bits
    else if same_chars name reference_class
    then Laid.laid (patch_first fields) 0 8
    else Laid.laid fields ref_n nref_size

-- `par_ref_n` and `par_nref_size` are the parent's, or 0 for the class with no parent.
unfoldable pub layout_fields : Bool → List ℕ → ℕ → ℕ → List Field → Laid
layout_fields fp name par_ref_n par_nref_size fields = elim (count_fields fp fields no_sizes) [
  | none ↦ Laid.unreachable
  | some s ↦
      let par = parent_size par_nref_size s in
      if ltb (32767 - 8) (new_size par s)
      then Laid.too_large
      else if ltb 32768 ((par_ref_n + s.ref_n) * 8)
      then Laid.too_many_refs
      else elim (assign_offsets fp fields (first_offsets par_ref_n par s)) [
        | none ↦ Laid.unreachable
        | some r ↦ laid_out name (par_ref_n + s.ref_n) (new_size par s) r
      ]
]
