-- ===== src/Classes/Layout/Bounds.antt =====
-- The fields of a class that is laid out, in the object.
use jelatine.Common.{
  ℕ, ◌+◌, ◌-◌, ◌*◌, ◌%◌, ◌^◌, ◌≤◌, ◌<◌, ◌≡◌, ◌⊎◌, inl, inr, refl, ap, sym, ◌∙◌, Bool, true, false,
  Option, none, some, List, [], ◌∷◌, arith, ltb, All, Bool-cases, Option-cases,
}
use mathlib.Core.Option.{some-injective}
use jelatine.Util.Rounding.{rounding_bounds}
use jelatine.Strings.{same_chars}
use jelatine.Memory.Chunks.Extent.{holds, holds-IsAdditive}
use jelatine.Fields.{Field, field_is_static, parse_field}
use jelatine.Fields.Shapes.{first_char}
use jelatine.Classes.Layout.{
  Kind, kind, Sizes, no_sizes, count_kind, count_fields, Offsets, offset, advance, assign_offsets,
  parent_size, new_size, first_offsets, Laid, laid_out, layout_fields, reference_class,
}
use jelatine.Classes.Layout.Sums.{
  of_kind, total, sum-static, sum-instance, count_fields-totals, sum-none, offset_kind-kind,
}
use jelatine.Classes.Layout.Blocks.{blocks, Fits}
use jelatine.Classes.Layout.Slots.{
  slot_sum, bit_in, ref_in, AreMultiples, has_bit-slot_sum, has_ref-slot_sum,
  AreAligned-AreMultiples,
}
use jelatine.Classes.Layout.Packing.{AllAligned, Assigned, assign_offsets-Assigned}

-- The offsets that are left, whether they fit or not.
advanced :
    (k : Kind) (o : Offsets) (n : ℕ)
    → (advance k o).bit_offset + n ≡ o.bit_offset + (of_kind Kind.bits k 0 + n)
advanced Kind.ref o n = omega arith
advanced Kind.bits o n = omega arith
advanced Kind.bytes o n = omega arith
advanced Kind.shorts o n = omega arith
advanced Kind.ints o n = omega arith
advanced Kind.longs o n = omega arith

assign_offsets-some :
    (fp : Bool) (fields : List Field) (o : Offsets) (s s' : Sizes)
    → count_fields fp fields s ≡ some s'
    → (given : List Field) × (last : Offsets) × (assign_offsets fp fields o ≡ some (given, last))
      × (last.bit_offset ≡ o.bit_offset + total fp Kind.bits fields)
unfolding assign_offsets count_fields
assign_offsets-some fp [] o s s' e = ([], o, refl, omega (arith, sum-none fp (of_kind Kind.bits)))
assign_offsets-some fp (f ∷ fields) o s s' e = elim (Bool-cases (field_is_static f)) [
  | inl t ↦
      let (given, last, q, a) = assign_offsets-some fp fields o s s' (rw (count_fields, t) at e) in
      (
        f ∷ given,
        last,
        rw (assign_offsets, t, q) refl,
        rw (sum-static fp (of_kind Kind.bits) f fields t) a,
      )
  | inr n ↦ elim (Option-cases (kind fp f.descriptor)) [
    | inl z ↦ absurd (let b = rw (count_fields, n, z) at e in cc)
    | inr (k, z) ↦
        let (given, last, q, a) =
          assign_offsets-some fp fields (advance k o) (count_kind k s) s'
            (rw (count_fields, n, z) at e) in
        (
          record f { offset = offset k o % 2 ^ 16 } ∷ given,
          last,
          rw (assign_offsets, n, offset_kind-kind fp f.descriptor, z, q) refl,
          rw (sum-instance fp (of_kind Kind.bits) f fields k n z)
              (a ∙ advanced k o (total fp Kind.bits fields)),
        )
  ]
]

join_five :
    (b a v w x y z : ℕ)
    → holds b a v
        + (holds b (a + v) w
            + (holds b (a + v + w) x + (holds b (a + v + w + x) y + holds b (a + v + w + x + y) z)))
      ≡ holds b a (v + (w + (x + (y + z))))
join_five b a v w x y z =
    let add = holds-IsAdditive b in
    omega (
      arith,
      add.of_join a v (w + (x + (y + z))),
      add.of_join (a + v) w (x + (y + z)),
      add.of_join (a + v + w) x (y + z),
      add.of_join (a + v + w + x) y z,
    )

within : (b a v a' v' : ℕ) → a' ≤ a → a + v ≤ a' + v' → holds b a v ≤ holds b a' v'
within b a v a' v' lo hi = ground arith

-- The parent's part, rounded up.
parent_size-bounds :
    (par : ℕ) (s : Sizes)
    → par < 2 ^ 15
    → (par ≤ parent_size par s)
      × (parent_size par s < par + 8)
      × ((s.long_size ≡ 0) ⊎ (parent_size par s % 8 ≡ 0))
      × ((s.int_size ≡ 0) ⊎ (parent_size par s % 4 ≡ 0))
      × ((s.short_size ≡ 0) ⊎ (parent_size par s % 2 ≡ 0))
unfolding parent_size
parent_size-bounds par s small =
    let (f8, c8, d8) = rounding_bounds par 8 (omega arith) (omega arith) in
    let (f4, c4, d4) = rounding_bounds par 4 (omega arith) (omega arith) in
    let (f2, c2, d2) = rounding_bounds par 2 (omega arith) (omega arith) in ground arith

abbrev pub refs_of : Laid → ℕ
refs_of (Laid.laid fields ref_n nref_size) = ref_n
refs_of l = 0

abbrev pub size_of : Laid → ℕ
size_of (Laid.laid fields ref_n nref_size) = nref_size
size_of l = 0

abbrev pub fields_of : Laid → List Field
fields_of (Laid.laid fields ref_n nref_size) = fields
fields_of l = []

abbrev pub is_laid : Laid → Bool
is_laid (Laid.laid fields ref_n nref_size) = true
is_laid l = false

-- What a layout promises behind the parent's part.
pub record Packed (fp : Bool) (par_ref_n par_nref_size : ℕ) (l : Laid) : Type 0 where
  pub bits :
      (b : ℕ)
      → slot_sum fp (bit_in b) (fields_of l)
        ≤ holds b (8 * (8 + par_nref_size)) (8 * (size_of l - par_nref_size))
  pub refs :
      (r : ℕ) → slot_sum fp (ref_in r) (fields_of l) ≡ holds r par_ref_n (refs_of l - par_ref_n)
  pub aligned : AreMultiples fp (fields_of l)

blocks_joined :
    (b refs par : ℕ) (s : Sizes) (t : Kind → ℕ)
    → s.long_size ≡ 8 * t Kind.longs
    → s.int_size ≡ 4 * t Kind.ints
    → s.short_size ≡ 2 * t Kind.shorts
    → s.byte_size ≡ t Kind.bytes
    → blocks b (first_offsets refs par s) t
      ≡ holds b (8 * (par + 8)) (
          64 * t Kind.longs
          + (32 * t Kind.ints + (16 * t Kind.shorts + (8 * t Kind.bytes + 1 * t Kind.bits))))
blocks_joined b refs par s t el ei es eb =
    let a : ℕ = 8 * (par + 8) in
    let l : ℕ = 64 * t Kind.longs in
    let i : ℕ = 32 * t Kind.ints in
    let sh : ℕ = 16 * t Kind.shorts in
    let e1 : 8 * (par + 8 + s.long_size) ≡ a + l = omega arith in
    let e2 : 8 * (par + 8 + s.long_size + s.int_size) ≡ a + l + i = omega arith in
    let e3 : 8 * (par + 8 + s.long_size + s.int_size + s.short_size) ≡ a + l + i + sh =
      omega arith in
    let e4 : (par + 8 + s.long_size + s.int_size + s.short_size + s.byte_size) * 2 ^ 3
        ≡ a + l + i + sh + 8 * t Kind.bytes =
      omega arith in
    rw (e1, e2, e3, e4) (join_five b a l i sh (8 * t Kind.bytes) (1 * t Kind.bits))

module _ (fp : Bool) (par_ref_n par_nref_size : ℕ) (small : par_nref_size < 2 ^ 15)
    (fields : List Field) (s : Sizes) (counted : count_fields fp fields no_sizes ≡ some s) where
  abbrev first : Offsets
  first = first_offsets par_ref_n (parent_size par_nref_size s) s

  first_fits :
      ltb (32767 - 8) (new_size (parent_size par_nref_size s) s) ≡ false
      → ltb 32768 ((par_ref_n + s.ref_n) * 8) ≡ false
      → first.bit_offset + total fp Kind.bits fields ≤ 32767
      → Fits first (λ k. total fp k fields) × AllAligned first (λ k. total fp k fields)
  first_fits size refs bound =
      let sizes = count_fields-totals fp fields no_sizes s counted in
      let (lo, hi, a8, a4, a2) = parent_size-bounds par_nref_size s small in
      (ground arith, omega arith)

  Assigned-Packed :
      (given : List Field) (last : Offsets)
      → Assigned fp fields first given last
      → Packed fp par_ref_n par_nref_size
          (Laid.laid given (par_ref_n + s.ref_n) (new_size (parent_size par_nref_size s) s))
  Assigned-Packed given last a =
      let (n, b0, b1, b2, b4, b8) = count_fields-totals fp fields no_sizes s counted in
      let (lo, hi, a8, a4, a2) = parent_size-bounds par_nref_size s small in
      let t : Kind → ℕ = λ k. total fp k fields in
      let refs : par_ref_n + s.ref_n - par_ref_n ≡ total fp Kind.ref fields = omega arith in
      record {
        bits = λ b.
            (let joined =
                blocks_joined b par_ref_n (parent_size par_nref_size s) s t (omega arith)
                  (omega arith) (omega arith) (omega arith) in
              rw (has_bit-slot_sum fp b given, a.bits b, joined)
                (within b (8 * (parent_size par_nref_size s + 8)) _ (8 * (8 + par_nref_size)) _
                  (omega arith) (omega arith)));
        refs = λ r. rw (has_ref-slot_sum fp r given, refs) (a.refs r);
        aligned = AreAligned-AreMultiples fp given a.aligned;
      }

-- What holds of each outcome: no code that is marked as unreachable is reached.
abbrev pub Kept : Bool → ℕ → ℕ → Laid → Type 0
Kept fp par_ref_n par_nref_size (Laid.laid fields ref_n nref_size) =
    Packed fp par_ref_n par_nref_size (Laid.laid fields ref_n nref_size)
Kept fp par_ref_n par_nref_size Laid.unreachable = true ≡ false
Kept fp par_ref_n par_nref_size l = Unit {0}

has_kind : Option Kind → Bool
has_kind none = false
has_kind (some k) = true

kind-some :
    (fp : Bool) (descriptor : List ℕ)
    → parse_field fp descriptor ≡ true
    → has_kind (kind fp descriptor) ≡ true
unfolding kind has_kind
kind-some fp descriptor h = ground (arith, first_char fp descriptor h)

count_fields-some :
    (fp : Bool) (fields : List Field) (s : Sizes)
    → All (λ (f : Field). parse_field fp f.descriptor ≡ true) fields
    → (s' : Sizes) × (count_fields fp fields s ≡ some s')
unfolding count_fields has_kind
count_fields-some fp [] s h = (s, refl)
count_fields-some fp (f ∷ fields) s (h, hs) = elim (Bool-cases (field_is_static f)) [
  | inl t ↦ let (s', e) = count_fields-some fp fields s hs in (s', rw (count_fields, t) e)
  | inr n ↦ elim (Option-cases (kind fp f.descriptor)) [
    | inl z ↦ absurd (let b = rw z at (kind-some fp f.descriptor h) in cc)
    | inr (k, z) ↦
        let (s', e) = count_fields-some fp fields (count_kind k s) hs in
        (s', rw (count_fields, n, z) e)
  ]
]

-- For a class other than `java/lang/ref/Reference`, with a parent of less than 2 ^ 15 bytes and fields whose
-- descriptors `field_parse_descriptor` accepts, `layout_fields` reaches no code that is marked as
-- unreachable. If it throws nothing, then with the sizes of fields by their descriptors (1 bit for a
-- boolean, 8 for a byte, 16 for a short or a character, 32 for an int or a float, 64 for a long, a
-- double or a pointer of the virtual machine) every bit of the object is in at most one instance field of
-- the class, and those lie behind the parent's part and inside the size that the class is given; the
-- references take the places in front of the header behind the parent's, each of them once; and each
-- offset is a multiple of its field's size.
pub layout_fields-Kept :
    (fp : Bool) (name : List ℕ) (par_ref_n par_nref_size : ℕ) (fields : List Field)
    → same_chars name reference_class ≡ false
    → par_nref_size < 2 ^ 15
    → All (λ (f : Field). parse_field fp f.descriptor ≡ true) fields
    → Kept fp par_ref_n par_nref_size (layout_fields fp name par_ref_n par_nref_size fields)
unfolding layout_fields laid_out
layout_fields-Kept fp name par_ref_n par_nref_size fields other small accepted =
    let (s, counted) = count_fields-some fp fields no_sizes accepted in
    let par : ℕ = parent_size par_nref_size s in
    let o : Offsets = first_offsets par_ref_n par s in
    let (given, last, q, end) = assign_offsets-some fp fields o no_sizes s counted in
    elim (Bool-cases (ltb (32767 - 8) (new_size par s))) [
      | inl t ↦ rw (layout_fields, counted, t) tt
      | inr size ↦ elim (Bool-cases (ltb 32768 ((par_ref_n + s.ref_n) * 8))) [
        | inl t ↦ rw (layout_fields, counted, size, t) tt
        | inr refs ↦ elim (Bool-cases (ltb 32767 last.bit_offset)) [
          | inl t ↦ rw (layout_fields, counted, size, refs, q, laid_out, t) tt
          | inr bits ↦
              let (fits, aligned) =
                first_fits fp par_ref_n par_nref_size small fields s counted size refs
                  (ground arith) in
              let (given', last', q', a) =
                assign_offsets-Assigned fp fields o no_sizes s counted fits aligned in
              let same = some-injective _ _ (sym q ∙ q') in
              let bits' : ltb 32767 last'.bit_offset ≡ false =
                sym (ap (λ (p : List Field × Offsets). ltb 32767 (p.1).bit_offset) same) ∙ bits in
              rw (layout_fields, counted, size, refs, q', laid_out, bits', other)
                (Assigned-Packed fp par_ref_n par_nref_size small fields s counted given' last' a)
        ]
      ]
    ]
