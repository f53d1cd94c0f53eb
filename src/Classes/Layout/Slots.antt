-- ===== src/Classes/Layout/Slots.antt =====
-- How much of an object the instance fields take, by their descriptors alone, for `layout_fields` of
-- src/jelatine/loader.c.
use jelatine.Common.{
  ℕ, ◌+◌, ◌-◌, ◌*◌, ◌/◌, ◌%◌, ◌^◌, ◌≡◌, refl, sym, ap, ◌∙◌, inl, inr, Bool, true, false, Option,
  none, some, List, [], ◌∷◌, arith, ◌==◌, if◌then◌else◌, Bool-cases, Option-cases,
}
use mathlib.Core.Option.{some-injective}
use mathlib.Core.Path.{subst}
use jelatine.Memory.Chunks.Extent.{holds}
use jelatine.Strings.{same_chars}
use jelatine.Descriptor.{at_place}
use jelatine.Fields.{Field, field_is_static}
use jelatine.Classes.Layout.{Kind, kind, vm_pointer}
use jelatine.Classes.Layout.Sums.{width, field_sum, has_bit, has_ref}
use jelatine.Classes.Layout.Packing.{IsAligned, AreAligned}

-- The first character of a descriptor, and how many bits behind the header a field of it takes:
-- none for a reference, 8 for a byte, 1 for a boolean, 16 for a character and a short, 32 for
-- an int and 64 for a long; with floating-point, also 32 for a float and 64 for a double.
abbrev pub sizes_in_bits : Bool → List (ℕ × ℕ)
sizes_in_bits false =
    (91, 0) ∷ (76, 0) ∷ (66, 8) ∷ (90, 1) ∷ (67, 16) ∷ (83, 16) ∷ (73, 32) ∷ (74, 64) ∷ []
sizes_in_bits true =
    (91, 0)
    ∷ (76, 0)
    ∷ (66, 8)
    ∷ (90, 1)
    ∷ (67, 16)
    ∷ (83, 16)
    ∷ (73, 32)
    ∷ (70, 32)
    ∷ (74, 64)
    ∷ (68, 64)
    ∷ []

abbrev pub look_up : ℕ → List (ℕ × ℕ) → Option ℕ
look_up c [] = none
look_up c (entry ∷ sizes) = if c == entry.0 then some entry.1 else look_up c sizes

-- A pointer of the virtual machine is no reference, and takes 64 bits.
unfoldable pub bits_of : Bool → List ℕ → Option ℕ
bits_of fp descriptor =
    if same_chars descriptor vm_pointer
    then some 64
    else look_up (at_place descriptor) (sizes_in_bits fp)

-- A sum over the instance fields, by their sizes in bits and their offsets.
unfoldable pub slot_sum : Bool → (ℕ → ℕ → ℕ) → List Field → ℕ
slot_sum fp w [] = 0
slot_sum fp w (f ∷ fields) =
    let rest = slot_sum fp w fields in
    elim (field_is_static f) [
      | true ↦ rest
      | false ↦ elim (bits_of fp f.descriptor) [ none ↦ rest | some n ↦ w n f.offset + rest ]
    ]

-- Whether a field has the bit `b` of the object: the offset of a boolean counts bits, the others bytes.
abbrev pub bit_in : ℕ → ℕ → ℕ → ℕ
bit_in b n offset = holds b (if n == 1 then offset else 8 * offset) n

-- Whether a field is the reference `r` in front of the header.
abbrev pub ref_in : ℕ → ℕ → ℕ → ℕ
ref_in r n offset = if n == 0 then holds r ((2 ^ 16 - offset) / 8 - 1) 1 else 0

-- The offset is a multiple of the size in bytes.
abbrev pub IsMultiple : ℕ → ℕ → Type 0
IsMultiple n offset =
    (n ≡ 0 → offset % 8 ≡ 0)
    × (n ≡ 16 → offset % 2 ≡ 0)
    × (n ≡ 32 → offset % 4 ≡ 0)
    × (n ≡ 64 → offset % 8 ≡ 0)

unfoldable pub AreMultiples : Bool → List Field → Type 0
AreMultiples fp [] = Unit {0}
AreMultiples fp (f ∷ fields) =
    (field_is_static f ≡ false → (n : ℕ) → bits_of fp f.descriptor ≡ some n → IsMultiple n f.offset)
    × AreMultiples fp fields

abbrev width_of : Option Kind → Option ℕ
width_of none = none
width_of (some k) = some (width k)

-- The first switch goes by these sizes.
bits_of-kind :
    (fp : Bool) (descriptor : List ℕ) → bits_of fp descriptor ≡ width_of (kind fp descriptor)
unfolding bits_of kind
bits_of-kind false descriptor = ground arith
bits_of-kind true descriptor = ground arith

bits_of-some :
    (fp : Bool) (descriptor : List ℕ) (n : ℕ)
    → bits_of fp descriptor ≡ some n
    → (k : Kind) × (kind fp descriptor ≡ some k) × (width k ≡ n)
bits_of-some fp descriptor n h = elim (Option-cases (kind fp descriptor)) [
  | inl z ↦
      let e : bits_of fp descriptor ≡ none = bits_of-kind fp descriptor ∙ ap width_of z in
      absurd (let a = sym e ∙ h in cc)
  | inr (k, z) ↦
      let e : bits_of fp descriptor ≡ some (width k) = bits_of-kind fp descriptor ∙ ap width_of z in
      (k, z, some-injective _ _ (sym e ∙ h))
]

-- A sum by kinds that weighs them by their sizes.
field_sum-slot_sum :
    (fp : Bool) (v : Kind → ℕ → ℕ) (w : ℕ → ℕ → ℕ) (fields : List Field)
    → ((k : Kind) (offset : ℕ) → v k offset ≡ w (width k) offset)
    → slot_sum fp w fields ≡ field_sum fp v fields
unfolding slot_sum field_sum
field_sum-slot_sum fp v w [] same = refl
field_sum-slot_sum fp v w (f ∷ fields) same =
    let rest = field_sum-slot_sum fp v w fields same in
    elim (Bool-cases (field_is_static f)) [
      | inl t ↦ rw (slot_sum, field_sum, t) rest
      | inr n ↦ elim (Option-cases (kind fp f.descriptor)) [
        | inl z ↦
            let e : bits_of fp f.descriptor ≡ none = bits_of-kind fp f.descriptor ∙ ap width_of z in
            rw (slot_sum, field_sum, n, z, e) rest
        | inr (k, z) ↦
            let e : bits_of fp f.descriptor ≡ some (width k) =
              bits_of-kind fp f.descriptor ∙ ap width_of z in
            rw (slot_sum, field_sum, n, z, e) (omega (arith, rest, same k f.offset))
      ]
    ]

pub has_bit-slot_sum :
    (fp : Bool) (b : ℕ) (fields : List Field)
    → slot_sum fp (bit_in b) fields ≡ field_sum fp (has_bit b) fields
has_bit-slot_sum fp b fields = field_sum-slot_sum fp (has_bit b) (bit_in b) fields same
  where
    same : (k : Kind) (offset : ℕ) → has_bit b k offset ≡ bit_in b (width k) offset
    same Kind.ref offset = refl
    same Kind.bits offset = refl
    same Kind.bytes offset = refl
    same Kind.shorts offset = refl
    same Kind.ints offset = refl
    same Kind.longs offset = refl

pub has_ref-slot_sum :
    (fp : Bool) (r : ℕ) (fields : List Field)
    → slot_sum fp (ref_in r) fields ≡ field_sum fp (has_ref r) fields
has_ref-slot_sum fp r fields = field_sum-slot_sum fp (has_ref r) (ref_in r) fields same
  where
    same : (k : Kind) (offset : ℕ) → has_ref r k offset ≡ ref_in r (width k) offset
    same Kind.ref offset = refl
    same Kind.bits offset = refl
    same Kind.bytes offset = refl
    same Kind.shorts offset = refl
    same Kind.ints offset = refl
    same Kind.longs offset = refl

IsAligned-IsMultiple : (k : Kind) (offset : ℕ) → IsAligned k offset → IsMultiple (width k) offset
IsAligned-IsMultiple Kind.ref offset a =
    (λ e. a, λ e. omega arith, λ e. omega arith, λ e. omega arith)
IsAligned-IsMultiple Kind.bits offset a =
    (λ e. omega arith, λ e. omega arith, λ e. omega arith, λ e. omega arith)
IsAligned-IsMultiple Kind.bytes offset a =
    (λ e. omega arith, λ e. omega arith, λ e. omega arith, λ e. omega arith)
IsAligned-IsMultiple Kind.shorts offset a =
    (λ e. omega arith, λ e. a, λ e. omega arith, λ e. omega arith)
IsAligned-IsMultiple Kind.ints offset a =
    (λ e. omega arith, λ e. omega arith, λ e. a, λ e. omega arith)
IsAligned-IsMultiple Kind.longs offset a =
    (λ e. omega arith, λ e. omega arith, λ e. omega arith, λ e. a)

pub AreAligned-AreMultiples :
    (fp : Bool) (fields : List Field) → AreAligned fp fields → AreMultiples fp fields
unfolding AreAligned AreMultiples
AreAligned-AreMultiples fp [] a = tt
AreAligned-AreMultiples fp (f ∷ fields) (a, rest) = (
  λ instance_field n h.
      let (k, z, e) = bits_of-some fp f.descriptor n h in
      subst (λ i. IsMultiple i f.offset) e
        (IsAligned-IsMultiple k f.offset (a k (rw instance_field z))),
  AreAligned-AreMultiples fp fields rest,
)
