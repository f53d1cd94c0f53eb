-- ===== src/Classes/Members/Flags.antt =====
-- What the flags of a field and its constant value have to be, for `verify_field` of
-- src/jelatine/verifier.c, by the digits of the flags as they stand in the class-file.
use jelatine.Common.{
  ℕ, zero, suc, ◌+◌, ◌*◌, ◌/◌, ◌^◌, ◌≤◌, ◌<◌, ◌≡◌, ◌≢◌, ◌↔◌, ◌⊎◌, refl, sym, ◌∙◌, inl, inr, Bool,
  true, false, not, ◌&&◌, ◌||◌, ◌==◌, none, bit_and, Bool-cases, Option-cases, arith,
}
use jelatine.Common.Bits.{digit, bit_and-digit, bit_and-low}
use jelatine.Descriptor.{at_place}
use jelatine.Strings.{same_chars}
use jelatine.Strings.Count.{same_chars_iff}
use jelatine.Methods.{has_flag}
use jelatine.Classes.Members.{
  FieldInfo, flags_of, string_descriptor, constant_sound, access_sound, interface_sound,
}

-- The bit `k` of the flags: 0 is public, 1 private, 2 protected, 3 static, 4 final, 6 volatile and
-- 7 transient.
abbrev pub flag : ℕ → FieldInfo → ℕ
flag k info = digit k info.access_flags

-- A constant value is that of a static field, and, where the field holds references, of a string.
abbrev pub ConstantSound : FieldInfo → Type 0
ConstantSound info =
    (info.constant_value ≡ none)
    ⊎ ((flag 3 info ≡ 1)
        × ((at_place info.descriptor ≢ 76) ⊎ (info.descriptor ≡ string_descriptor)))

-- At most one of public, private and protected, and not both final and volatile.
abbrev pub AccessSound : FieldInfo → Type 0
AccessSound info = (flag 0 info + flag 1 info + flag 2 info ≤ 1) × (flag 4 info + flag 6 info ≤ 1)

-- The fields of an interface are public, static and final, and not transient.
abbrev pub InterfaceSound : Bool → FieldInfo → Type 0
InterfaceSound interface info =
    (interface ≡ false)
    ⊎ ((flag 0 info ≡ 1) × (flag 3 info ≡ 1) × (flag 4 info ≡ 1) × (flag 7 info ≡ 0))

abbrev pub Sound : Bool → FieldInfo → Type 0
Sound interface info = ConstantSound info × AccessSound info × InterfaceSound interface info

digit_bound : (k a : ℕ) → digit k a ≤ 1
digit_bound zero a = omega arith
digit_bound (suc k) a = digit_bound k (a / 2)

digit-bit_and : (k a b : ℕ) → digit k b ≡ 1 → digit k (bit_and a b) ≡ digit k a
digit-bit_and zero a b h = ground (arith, bit_and-low a b)
digit-bit_and (suc k) a b h =
    let e : bit_and a b / 2 ≡ bit_and (a / 2) (b / 2) = ground (arith, bit_and-low a b) in
    rw e (digit-bit_and k (a / 2) (b / 2) h)

-- A flag that the mask keeps.
has_flag-flags_of :
    (k : ℕ) (info : FieldInfo)
    → digit k 0xdf ≡ 1
    → 0 < 2 ^ k
    → has_flag (flags_of info) (2 ^ k) ≡ (flag k info == 1)
has_flag-flags_of k info kept positive =
    let f = bit_and-digit k (flags_of info) in
    let d = digit-bit_and k info.access_flags 0xdf kept in
    let b = digit_bound k info.access_flags in
    elim (Bool-cases (flag k info == 1)) [
      | inl y ↦
          let one : digit k (flags_of info) ≡ 1 = ground arith in
          let g : bit_and (flags_of info) (2 ^ k) ≡ 1 * 2 ^ k = rw one at f in
          rw (y, g) (ground arith)
      | inr n ↦
          let none_set : digit k (flags_of info) ≡ 0 = ground arith in
          let g : bit_and (flags_of info) (2 ^ k) ≡ 0 * 2 ^ k = rw none_set at f in
          rw (n, g) (ground arith)
    ]

module _ (interface : Bool) (info : FieldInfo) where
  p0 : has_flag (flags_of info) 1 ≡ (flag 0 info == 1)
  p0 = has_flag-flags_of 0 info refl (omega arith)

  p1 : has_flag (flags_of info) 2 ≡ (flag 1 info == 1)
  p1 = has_flag-flags_of 1 info refl (omega arith)

  p2 : has_flag (flags_of info) 4 ≡ (flag 2 info == 1)
  p2 = has_flag-flags_of 2 info refl (omega arith)

  p3 : has_flag (flags_of info) 8 ≡ (flag 3 info == 1)
  p3 = has_flag-flags_of 3 info refl (omega arith)

  p4 : has_flag (flags_of info) 16 ≡ (flag 4 info == 1)
  p4 = has_flag-flags_of 4 info refl (omega arith)

  p6 : has_flag (flags_of info) 64 ≡ (flag 6 info == 1)
  p6 = has_flag-flags_of 6 info refl (omega arith)

  p7 : has_flag (flags_of info) 128 ≡ (flag 7 info == 1)
  p7 = has_flag-flags_of 7 info refl (omega arith)

  access_sound_iff : (access_sound (flags_of info) ≡ true) ↔ AccessSound info
  access_sound_iff = rw (p0, p1, p2, p4, p6) (ground arith)

  interface_sound_iff :
      (interface_sound interface (flags_of info) ≡ true) ↔ InterfaceSound interface info
  interface_sound_iff = rw (p0, p3, p4, p7) (ground arith)

  constant_sound_iff : (constant_sound info ≡ true) ↔ ConstantSound info
  constant_sound_iff = elim (Option-cases (info.constant_value)) [
    | inl e ↦ (λ _. inl e, λ _. rw e refl)
    | inr (index, e) ↦
        let d = same_chars_iff info.descriptor string_descriptor in
        let static = p3 in
        (
          λ h.
              let h' : (has_flag (flags_of info) 8
                    && (not (at_place info.descriptor == 76)
                        || same_chars info.descriptor string_descriptor))
                  ≡ true =
                rw e at h in
              inr (
                ground arith,
                elim (Bool-cases (at_place info.descriptor == 76)) [
                  | inl y ↦ inr (d.0 (ground arith))
                  | inr n ↦ inl (ground arith)
                ],
              ),
          λ h. rw e (elim h [
            | inl z ↦ absurd (let a = sym z ∙ e in cc)
            | inr (s, inl n) ↦ ground arith
            | inr (s, inr q) ↦ let t = d.1 q in ground arith
          ]),
        )
  ]

  -- What the three checks of `verify_field` ask for.
  pub Sound-iff :
      ((constant_sound info ≡ true)
        × (access_sound (flags_of info) ≡ true)
        × (interface_sound interface (flags_of info) ≡ true))
      ↔ Sound interface info
  Sound-iff = (
    λ (c, a, i). (constant_sound_iff.0 c, access_sound_iff.0 a, interface_sound_iff.0 i),
    λ (c, a, i). (constant_sound_iff.1 c, access_sound_iff.1 a, interface_sound_iff.1 i),
  )
