-- ===== src/Classes/Members/Lookup.antt =====
-- What `load_fields` of src/jelatine/loader.c leaves in a class, and what `class_get_field` of
-- src/jelatine/class.c finds there.
use jelatine.Common.{
  ℕ, ◌≡◌, refl, sym, ◌∙◌, inl, inr, Bool, true, false, ◌&&◌, none, some, List, [], ◌∷◌, ◌++◌, All,
  All-append, map, Bool-cases, arith,
}
use mathlib.Core.Path.{subst}
use mathlib.Core.List.{append-nil, append_assoc}
use mathlib.Core.Option.{some-injective}
use jelatine.Strings.{same_chars}
use jelatine.Strings.Count.{same_chars_iff}
use jelatine.Fields.{Field, field_is_static, same_bool, parse_field}
use jelatine.Classes.Members.Flags.{Sound, Sound-iff}
use jelatine.Classes.Members.{
  FieldInfo, is_duplicate, verify_field, added_field, class_add_field, load_fields, class_get_field,
}

-- A field is found by its own name, descriptor and kind, and its descriptor is sound.
abbrev pub Found : Bool → List Field → Field → Type 0
Found fp fields f =
    (class_get_field fields f.name f.descriptor (field_is_static f) ≡ some f)
    × (parse_field fp f.descriptor ≡ true)

get-append :
    (fields more : List Field) (n d : List ℕ) (s : Bool) (f : Field)
    → class_get_field fields n d s ≡ some f
    → class_get_field (fields ++ more) n d s ≡ some f
unfolding class_get_field
get-append [] more n d s f h = absurd (let e = h in cc)
get-append (g ∷ fields) more n d s f h =
    elim (Bool-cases
      (same_chars g.name n && same_chars g.descriptor d && same_bool (field_is_static g) s)) [
        | inl y ↦
            let h' : some g ≡ some f = rw (class_get_field, y) at h in rw (class_get_field, y) h'
        | inr n' ↦
            let h' : class_get_field fields n d s ≡ some f = rw (class_get_field, n') at h in
            rw (class_get_field, n') (get-append fields more n d s f h')
      ]

get-last :
    (fields : List Field) (g : Field)
    → is_duplicate fields g.name g.descriptor ≡ false
    → class_get_field (fields ++ (g ∷ [])) g.name g.descriptor (field_is_static g) ≡ some g
unfolding class_get_field is_duplicate
get-last [] g h =
    let a = (same_chars_iff g.name g.name).1 refl in
    let b = (same_chars_iff g.descriptor g.descriptor).1 refl in ground arith
get-last (f ∷ fields) g h = ground (arith, get-last fields g)

Found-append :
    (fp : Bool) (fields more some_fields : List Field)
    → All (Found fp fields) some_fields
    → All (Found fp (fields ++ more)) some_fields
Found-append fp fields more [] a = tt
Found-append fp fields more (f ∷ rest) a = (
  (get-append fields more f.name f.descriptor (field_is_static f) f a.0.0, a.0.1),
  Found-append fp fields more rest a.1,
)

both : (a b : Bool) → (a && b) ≡ true → (a ≡ true) × (b ≡ true)
both a b h = (ground arith, ground arith)

pub verify_field-parts :
    (fp interface : Bool) (fields : List Field) (info : FieldInfo)
    → verify_field fp interface fields info ≡ true
    → (is_duplicate fields info.name info.descriptor ≡ false)
      × (parse_field fp info.descriptor ≡ true)
      × Sound interface info
unfolding verify_field
verify_field-parts fp interface fields info v =
    let (abcd, e) = both _ _ v in
    let (abc, d) = both _ _ abcd in
    let (ab, c) = both _ _ abc in
    let (a, b) = both _ _ ab in (ground arith, b, (Sound-iff interface info).0 (c, d, e))

add-Found :
    (fp interface : Bool) (fields : List Field) (info : FieldInfo)
    → verify_field fp interface fields info ≡ true
    → All (Found fp fields) fields
    → All (Found fp (class_add_field fields info)) (class_add_field fields info)
unfolding class_add_field added_field
add-Found fp interface fields info v a =
    let g = added_field info in
    let (new, sound, flags) = verify_field-parts fp interface fields info v in
    All-append (Found fp (fields ++ (g ∷ []))) fields (g ∷ [])
      (Found-append fp fields (g ∷ []) fields a) ((get-last fields g new, sound), tt)

loaded-Found :
    (fp interface : Bool) (infos : List FieldInfo) (fields fields' : List Field)
    → All (Found fp fields) fields
    → load_fields fp interface infos fields ≡ some fields'
    → (fields' ≡ fields ++ map added_field infos)
      × All (Sound interface) infos
      × All (Found fp fields') fields'
unfolding load_fields class_add_field
loaded-Found fp interface [] fields fields' a h =
    let e = some-injective _ _ h in
    (sym e ∙ sym (append-nil fields), tt, subst (λ l. All (Found fp l) l) e a)
loaded-Found fp interface (info ∷ infos) fields fields' a h =
    elim (Bool-cases (verify_field fp interface fields info)) [
      | inl y ↦
          let h' : load_fields fp interface infos (class_add_field fields info) ≡ some fields' =
            rw (load_fields, y) at h in
          let (e, sound, found) =
            loaded-Found fp interface infos (class_add_field fields info) fields'
              (add-Found fp interface fields info y a) h' in
          let (new, parses, mine) = verify_field-parts fp interface fields info y in
          (
            e ∙ append_assoc fields (added_field info ∷ []) (map added_field infos),
            (mine, sound),
            found,
          )
      | inr f ↦ let h' : none ≡ some fields' = rw (load_fields, f) at h in absurd (let b = h' in cc)
    ]

-- When `load_fields` returns, the class has a field for each of the class-file in their order, with
-- the masked flags; the flags of each go together; and `class_get_field` finds each field by its name,
-- its descriptor and whether it is static, and that descriptor is sound.
pub load_fields-Found :
    (fp interface : Bool) (infos : List FieldInfo) (fields : List Field)
    → load_fields fp interface infos [] ≡ some fields
    → (fields ≡ map added_field infos) × All (Sound interface) infos × All (Found fp fields) fields
load_fields-Found fp interface infos fields h = loaded-Found fp interface infos [] fields tt h
