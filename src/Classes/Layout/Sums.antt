-- ===== src/Classes/Layout/Sums.antt =====
-- Sums over the instance fields that `layout_fields` of src/jelatine/loader.c lays out.
use jelatine.Common.{
  ℕ, ◌+◌, ◌-◌, ◌*◌, ◌/◌, ◌^◌, ◌≡◌, inl, inr, refl, sym, Bool, true, false, Option, none, some, List,
  [], ◌∷◌, arith, if◌then◌else◌, Bool-cases, Option-cases,
}
use mathlib.Core.Option.{some-injective}
use jelatine.Memory.Chunks.Extent.{holds}
use jelatine.Fields.{Field, field_is_static}
use jelatine.Classes.Layout.{Kind, kind, offset_kind, Sizes, count_kind, count_fields, offset}

-- How many bits a field takes behind the header, and the first of them.
abbrev pub width : Kind → ℕ
width Kind.ref = 0
width Kind.bits = 1
width Kind.bytes = 8
width Kind.shorts = 16
width Kind.ints = 32
width Kind.longs = 64

abbrev pub first_bit : Kind → ℕ → ℕ
first_bit Kind.bits offset = offset
first_bit k offset = 8 * offset

-- The instance fields of a list that are of one kind.
abbrev pub same_kind : Kind → Kind → Bool
same_kind Kind.ref Kind.ref = true
same_kind Kind.bits Kind.bits = true
same_kind Kind.bytes Kind.bytes = true
same_kind Kind.shorts Kind.shorts = true
same_kind Kind.ints Kind.ints = true
same_kind Kind.longs Kind.longs = true
same_kind k k' = false

abbrev pub kind_of : Bool → Field → Option Kind
kind_of fp f = if field_is_static f then none else kind fp f.descriptor

-- A sum over the instance fields, by their kinds and offsets.
unfoldable pub field_sum : Bool → (Kind → ℕ → ℕ) → List Field → ℕ
field_sum fp w [] = 0
field_sum fp w (f ∷ fields) =
    let rest = field_sum fp w fields in
    elim (field_is_static f) [
      | true ↦ rest
      | false ↦ elim (kind fp f.descriptor) [ none ↦ rest | some k ↦ w k f.offset + rest ]
    ]

-- How many fields have the bit `b` of the object.
abbrev pub has_bit : ℕ → Kind → ℕ → ℕ
has_bit b k offset = holds b (first_bit k offset) (width k)

-- How many fields have the reference `r` in front of the header.
abbrev pub has_ref : ℕ → Kind → ℕ → ℕ
has_ref r Kind.ref offset = holds r ((2 ^ 16 - offset) / 8 - 1) 1
has_ref r k offset = 0

abbrev pub of_kind : Kind → Kind → ℕ → ℕ
of_kind k k' offset = if same_kind k k' then 1 else 0

-- What the first loop counts.
abbrev pub total : Bool → Kind → List Field → ℕ
total fp k fields = field_sum fp (of_kind k) fields

abbrev pub Sized : Sizes → Sizes → Type 0
Sized s t =
    (s.ref_n ≡ t.ref_n)
    × (s.bit_size ≡ t.bit_size)
    × (s.byte_size ≡ t.byte_size)
    × (s.short_size ≡ t.short_size)
    × (s.int_size ≡ t.int_size)
    × (s.long_size ≡ t.long_size)

-- Both switches tell the kinds apart in the same way.
pub offset_kind-kind :
    (fp : Bool) (descriptor : List ℕ) → offset_kind fp descriptor ≡ kind fp descriptor
unfolding offset_kind kind
offset_kind-kind fp descriptor = refl

module _ (fp : Bool) (w : Kind → ℕ → ℕ) (f : Field) (fields : List Field) where
  pub sum-static : field_is_static f ≡ true → field_sum fp w (f ∷ fields) ≡ field_sum fp w fields
  unfolding field_sum
  sum-static t = rw (field_sum, t) refl

  pub sum-instance :
      (k : Kind)
      → field_is_static f ≡ false
      → kind fp f.descriptor ≡ some k
      → field_sum fp w (f ∷ fields) ≡ w k f.offset + field_sum fp w fields
  unfolding field_sum
  sum-instance k n e = rw (field_sum, n, e) refl

module _ (fp : Bool) where
  abbrev pub totals : List Field → Sizes → Sizes
  totals fields s = record {
    ref_n = s.ref_n + total fp Kind.ref fields;
    bit_size = s.bit_size + total fp Kind.bits fields;
    byte_size = s.byte_size + total fp Kind.bytes fields;
    short_size = s.short_size + 2 * total fp Kind.shorts fields;
    int_size = s.int_size + 4 * total fp Kind.ints fields;
    long_size = s.long_size + 8 * total fp Kind.longs fields;
  }

  -- The sums over one field more.
  step_all :
      (k : Kind) (f : Field) (fields : List Field)
      → field_is_static f ≡ false
      → kind fp f.descriptor ≡ some k
      → (total fp Kind.ref (f ∷ fields) ≡ of_kind Kind.ref k f.offset + total fp Kind.ref fields)
        × (total fp Kind.bits (f ∷ fields)
            ≡ of_kind Kind.bits k f.offset + total fp Kind.bits fields)
        × (total fp Kind.bytes (f ∷ fields)
            ≡ of_kind Kind.bytes k f.offset + total fp Kind.bytes fields)
        × (total fp Kind.shorts (f ∷ fields)
            ≡ of_kind Kind.shorts k f.offset + total fp Kind.shorts fields)
        × (total fp Kind.ints (f ∷ fields)
            ≡ of_kind Kind.ints k f.offset + total fp Kind.ints fields)
        × (total fp Kind.longs (f ∷ fields)
            ≡ of_kind Kind.longs k f.offset + total fp Kind.longs fields)
  step_all k f fields n e =
      let step = (λ (j : Kind). sum-instance fp (of_kind j) f fields k n e) in
      (
        step Kind.ref,
        step Kind.bits,
        step Kind.bytes,
        step Kind.shorts,
        step Kind.ints,
        step Kind.longs,
      )

  one_more :
      (k : Kind) (f : Field) (fields : List Field) (s s' : Sizes)
      → field_is_static f ≡ false
      → kind fp f.descriptor ≡ some k
      → Sized s' (totals fields (count_kind k s))
      → Sized s' (totals (f ∷ fields) s)
  one_more Kind.ref f fields s s' n e h = omega (arith, h, step_all Kind.ref f fields n e)
  one_more Kind.bits f fields s s' n e h = omega (arith, h, step_all Kind.bits f fields n e)
  one_more Kind.bytes f fields s s' n e h = omega (arith, h, step_all Kind.bytes f fields n e)
  one_more Kind.shorts f fields s s' n e h = omega (arith, h, step_all Kind.shorts f fields n e)
  one_more Kind.ints f fields s s' n e h = omega (arith, h, step_all Kind.ints f fields n e)
  one_more Kind.longs f fields s s' n e h = omega (arith, h, step_all Kind.longs f fields n e)

  pub count_fields-totals :
      (fields : List Field) (s s' : Sizes)
      → count_fields fp fields s ≡ some s'
      → Sized s' (totals fields s)
  unfolding count_fields field_sum
  count_fields-totals [] s s' e = let q = some-injective _ _ e in rw (sym q) (omega arith)
  count_fields-totals (f ∷ fields) s s' e = elim (Bool-cases (field_is_static f)) [
    | inl t ↦
        let e' : count_fields fp fields s ≡ some s' = rw (count_fields, t) at e in
        let step = (λ (j : Kind). sum-static fp (of_kind j) f fields t) in
        let h = count_fields-totals fields s s' e' in
        rw
          (
            step Kind.ref,
            step Kind.bits,
            step Kind.bytes,
            step Kind.shorts,
            step Kind.ints,
            step Kind.longs,
          )
          h
    | inr n ↦ elim (Option-cases (kind fp f.descriptor)) [
      | inl z ↦ absurd (let b = rw (count_fields, n, z) at e in cc)
      | inr (k, z) ↦
          let e' : count_fields fp fields (count_kind k s) ≡ some s' =
            rw (count_fields, n, z) at e in
          one_more k f fields s s' n z (count_fields-totals fields (count_kind k s) s' e')
    ]
  ]

pub sum-none : (fp : Bool) (w : Kind → ℕ → ℕ) → field_sum fp w [] ≡ 0
unfolding field_sum
sum-none fp w = refl
