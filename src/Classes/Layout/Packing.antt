-- ===== src/Classes/Layout/Packing.antt =====
-- The instance fields of a class that is laid out overlap neither each other nor those of the parent.
use jelatine.Common.{
  ℕ, ◌+◌, ◌%◌, ◌^◌, ◌≡◌, ◌⊎◌, inl, inr, refl, sym, ◌∙◌, Bool, false, some, List, [], ◌∷◌, arith,
  Bool-cases, Option-cases,
}
use mathlib.Core.Option.{some-injective}
use mathlib.Core.Path.{subst}
use jelatine.Memory.Chunks.Extent.{holds, holds-IsAdditive}
use jelatine.Fields.{Field, field_is_static}
use jelatine.Classes.Layout.{
  Kind, kind, Sizes, count_kind, count_fields, Offsets, offset, advance, assign_offsets,
}
use jelatine.Classes.Layout.Sums.{
  same_kind, kind_of, field_sum, has_bit, has_ref, of_kind, total, sum-static, sum-instance,
  sum-none, offset_kind-kind,
}
use jelatine.Classes.Layout.Blocks.{blocks, blocks-none, IsNext, blocks-step, Fits, fits-Placed}

-- The offset of a field is a multiple of its size.
abbrev pub IsAligned : Kind → ℕ → Type 0
IsAligned Kind.ref offset = offset % 8 ≡ 0
IsAligned Kind.bits offset = Unit {0}
IsAligned Kind.bytes offset = Unit {0}
IsAligned Kind.shorts offset = offset % 2 ≡ 0
IsAligned Kind.ints offset = offset % 4 ≡ 0
IsAligned Kind.longs offset = offset % 8 ≡ 0

-- Where a kind has fields, the next of them is aligned.
abbrev pub AllAligned : Offsets → (Kind → ℕ) → Type 0
AllAligned o t =
    ((t Kind.shorts ≡ 0) ⊎ (o.short_offset % 2 ≡ 0))
    × ((t Kind.ints ≡ 0) ⊎ (o.int_offset % 4 ≡ 0))
    × ((t Kind.longs ≡ 0) ⊎ (o.long_offset % 8 ≡ 0))

AllAligned-advance :
    (k : Kind) (o : Offsets) (t t' : Kind → ℕ)
    → IsNext k t t'
    → Fits o t'
    → AllAligned o t'
    → AllAligned (advance k o) t × IsAligned k (offset k o % 2 ^ 16)
AllAligned-advance Kind.ref o t t' h fit al =
    let d = h Kind.shorts in let i = h Kind.ints in let l = h Kind.longs in ground arith
AllAligned-advance Kind.bits o t t' h fit al =
    let d = h Kind.shorts in let i = h Kind.ints in let l = h Kind.longs in (ground arith, tt)
AllAligned-advance Kind.bytes o t t' h fit al =
    let d = h Kind.shorts in let i = h Kind.ints in let l = h Kind.longs in (ground arith, tt)
AllAligned-advance Kind.shorts o t t' h fit al =
    let d = h Kind.shorts in let i = h Kind.ints in let l = h Kind.longs in ground arith
AllAligned-advance Kind.ints o t t' h fit al =
    let d = h Kind.shorts in let i = h Kind.ints in let l = h Kind.longs in ground arith
AllAligned-advance Kind.longs o t t' h fit al =
    let d = h Kind.shorts in let i = h Kind.ints in let l = h Kind.longs in ground arith

-- Every instance field of a list is aligned.
unfoldable pub AreAligned : Bool → List Field → Type 0
AreAligned fp [] = Unit {0}
AreAligned fp (f ∷ fields) =
    ((k : Kind) → kind_of fp f ≡ some k → IsAligned k f.offset) × AreAligned fp fields

pub record Assigned (fp : Bool) (fields : List Field) (o : Offsets) (given : List Field)
    (last : Offsets) : Type 0 where
  pub bits : (b : ℕ) → field_sum fp (has_bit b) given ≡ blocks b o (λ k. total fp k fields)
  pub refs :
      (r : ℕ) → field_sum fp (has_ref r) given ≡ holds r o.ref_offset (total fp Kind.ref fields)
  pub end : last.bit_offset ≡ o.bit_offset + total fp Kind.bits fields
  pub aligned : AreAligned fp given

module _ (fp : Bool) where
  IsNext-field :
      (k : Kind) (f : Field) (fields : List Field)
      → field_is_static f ≡ false
      → kind fp f.descriptor ≡ some k
      → IsNext k (λ j. total fp j fields) (λ j. total fp j (f ∷ fields))
  IsNext-field k f fields n e j =
      sum-instance fp (of_kind j) f fields k n e
      ∙ elim (Bool-cases (same_kind j k)) [ inl t ↦ rw t refl | inr u ↦ rw u (omega arith) ]

  pub assign_offsets-Assigned :
      (fields : List Field) (o : Offsets) (s s' : Sizes)
      → count_fields fp fields s ≡ some s'
      → Fits o (λ k. total fp k fields)
      → AllAligned o (λ k. total fp k fields)
      → (given : List Field) × (last : Offsets) × (assign_offsets fp fields o ≡ some (given, last))
        × Assigned fp fields o given last
  unfolding assign_offsets AreAligned count_fields
  assign_offsets-Assigned [] o s s' e fit al = (
    [],
    o,
    refl,
    record {
      bits = λ b.
          sum-none fp (has_bit b)
          ∙ sym (blocks-none b o (λ k. total fp k []) (λ j. sum-none fp (of_kind j)));
      refs = λ r.
          sum-none fp (has_ref r)
          ∙ rw (sum-none fp (of_kind Kind.ref)) (sym ((holds-IsAdditive r).of_empty o.ref_offset));
      end = omega (arith, sum-none fp (of_kind Kind.bits));
      aligned = tt;
    },
  )
  assign_offsets-Assigned (f ∷ fields) o s s' e fit al = elim (Bool-cases (field_is_static f)) [
    | inl t ↦
        let e' : count_fields fp fields s ≡ some s' = rw (count_fields, t) at e in
        let same : (j : Kind) → total fp j (f ∷ fields) ≡ total fp j fields =
          (λ j. sum-static fp (of_kind j) f fields t) in
        let (given, last, q, a) =
          assign_offsets-Assigned fields o s s' e'
            (rw
              (
                same Kind.ref,
                same Kind.bits,
                same Kind.bytes,
                same Kind.shorts,
                same Kind.ints,
                same Kind.longs,
              )
              at fit)
            (rw (same Kind.shorts, same Kind.ints, same Kind.longs) at al) in
        (
          f ∷ given,
          last,
          rw (assign_offsets, t, q) refl,
          record {
            bits = λ b.
                rw
                  (
                    same Kind.longs,
                    same Kind.ints,
                    same Kind.shorts,
                    same Kind.bytes,
                    same Kind.bits,
                  )
                  (sum-static fp (has_bit b) f given t ∙ a.bits b);
            refs = λ r. rw (same Kind.ref) (sum-static fp (has_ref r) f given t ∙ a.refs r);
            end = rw (same Kind.bits) a.end;
            aligned = (λ k h. absurd (let b = rw t at h in cc), a.aligned);
          },
        )
    | inr n ↦ elim (Option-cases (kind fp f.descriptor)) [
      | inl z ↦ absurd (let b = rw (count_fields, n, z) at e in cc)
      | inr (k, z) ↦
          let e' : count_fields fp fields (count_kind k s) ≡ some s' =
            rw (count_fields, n, z) at e in
          let next = IsNext-field k f fields n z in
          let t : Kind → ℕ = λ j. total fp j fields in
          let t' : Kind → ℕ = λ j. total fp j (f ∷ fields) in
          let placed = fits-Placed k o t t' next fit in
          let (al', mine) = AllAligned-advance k o t t' next fit al in
          let (given, last, q, a) =
            assign_offsets-Assigned fields (advance k o) (count_kind k s) s' e' placed.fits al' in
          let f' : Field = record f { offset = offset k o % 2 ^ 16 } in
          (
            f' ∷ given,
            last,
            rw (assign_offsets, n, offset_kind-kind fp f.descriptor, z, q) refl,
            record {
              bits = λ b.
                  sum-instance fp (has_bit b) f' given k n z
                  ∙ omega (arith, placed.value b, a.bits b, blocks-step b k o t t' next);
              refs = λ r.
                  sum-instance fp (has_ref r) f' given k n z
                  ∙ omega (arith, a.refs r, placed.refs r);
              end = a.end ∙ placed.last;
              aligned = (
                λ j h.
                    let same : k ≡ j = some-injective _ _ (sym z ∙ rw n at h) in
                    subst (λ i. IsAligned i (offset k o % 2 ^ 16)) same mine,
                a.aligned,
              );
            },
          )
    ]
  ]
