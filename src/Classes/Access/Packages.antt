-- ===== src/Classes/Access/Packages.antt =====
-- `same_package` of src/jelatine/verifier.c compares the names of the packages.
use jelatine.Common.{
  ℕ, suc, ◌+◌, ◌≡◌, ◌≢◌, ◌↔◌, refl, sym, ap, ◌∙◌, inl, inr, true, false, Option, none, some, List,
  [], ◌∷◌, ◌==◌, if◌then◌else◌, length, Bool-cases, Option-cases, ==-refl, arith,
}
use mathlib.Core.Option.{some-injective}
use mathlib.Core.Path.{subst}
use jelatine.Descriptor.{at_place}
use jelatine.Classes.Access.{last_slash, same_bytes, same_package}

-- In front of the package of the rest of a name.
abbrev pub extended : ℕ → Option (List ℕ) → Option (List ℕ)
extended c (some p) = some (c ∷ p)
extended c none = if c == 47 then some [] else none

-- The package in a name is what stands in front of the last '/'; without a '/' it is the default one.
abbrev pub package_of : List ℕ → Option (List ℕ)
package_of [] = none
package_of (c ∷ cs) = extended c (package_of cs)

-- The place of the last '/'.
abbrev slash_from : Option (List ℕ) → ℕ → ℕ → ℕ
slash_from none i sl = sl
slash_from (some p) i sl = i + length p

slash_from-extended :
    (c : ℕ) (o : Option (List ℕ)) (i sl : ℕ)
    → slash_from (extended c o) i sl ≡ slash_from o (i + 1) (if c == 47 then i else sl)
slash_from-extended c none i sl = ground arith
slash_from-extended c (some p) i sl = omega arith

last_slash-package :
    (str : List ℕ) (i sl : ℕ) → last_slash str i sl ≡ slash_from (package_of str) i sl
unfolding last_slash
last_slash-package [] i sl = refl
last_slash-package (c ∷ str) i sl =
    last_slash-package str (i + 1) (if c == 47 then i else sl)
    ∙ sym (slash_from-extended c (package_of str) i sl)

cons-injective : {c d : ℕ} {p q : List ℕ} → (c ∷ p) ≡ (d ∷ q) → (c ≡ d) × (p ≡ q)
cons-injective h = (cc, cc)

extended-none : (c : ℕ) (p : List ℕ) → extended c none ≡ some p → (c ≡ 47) × (p ≡ [])
extended-none c p e = elim (Bool-cases (c == 47)) [
  | inl y ↦ let e' : some [] ≡ some p = rw y at e in (ground arith, sym (some-injective _ _ e'))
  | inr n ↦ let e' : none ≡ some p = rw n at e in absurd (let b = e' in cc)
]

lengths : {d : ℕ} (q' p q : List ℕ) → p ≡ [] → d ∷ q' ≡ q → length p ≡ length q → ⊥
lengths q' p q e f l = let a = ap length e in let b = ap length f in omega arith

-- One byte further in front.
same_bytes-extended :
    (c d : ℕ) (a b : List ℕ) (oa ob : Option (List ℕ)) (p q : List ℕ)
    → extended c oa ≡ some p
    → extended d ob ≡ some q
    → length p ≡ length q
    → ((p' q' : List ℕ)
        → oa ≡ some p'
        → ob ≡ some q'
        → length p' ≡ length q'
        → (same_bytes (suc (length p')) a b ≡ true) ↔ (p' ≡ q'))
    → (same_bytes (suc (length p)) (c ∷ a) (d ∷ b) ≡ true) ↔ (p ≡ q)
unfolding same_bytes
same_bytes-extended c d a b none none p q ea eb l ih =
    let pc = extended-none c p ea in
    let qd = extended-none d q eb in
    let c_d : (c == d) ≡ true = let c47 = pc.0 in let d47 = qd.0 in ground arith in
    rw (pc.1, qd.1) (λ _. refl, λ _. rw c_d refl)
same_bytes-extended c d a b none (some q') p q ea eb l ih =
    let pc = extended-none c p ea in
    let e : d ∷ q' ≡ q = some-injective _ _ eb in absurd (lengths q' p q pc.1 e l)
same_bytes-extended c d a b (some p') none p q ea eb l ih =
    let qd = extended-none d q eb in
    let e : c ∷ p' ≡ p = some-injective _ _ ea in absurd (lengths p' q p qd.1 e (sym l))
same_bytes-extended c d a b (some p') (some q') p q ea eb l ih =
    let x : c ∷ p' ≡ p = some-injective _ _ ea in
    let y : d ∷ q' ≡ q = some-injective _ _ eb in
    let lp = ap length x in
    let lq = ap length y in
    let (there, back) = ih p' q' refl refl (omega arith) in
    rw (← x, ← y)
      (
        λ h. let e : c ≡ d = ground arith in let r = there (ground arith) in cc,
        λ h. let (e, r) = cons-injective h in let t = back r in ground arith,
      )

-- As many bytes as a package has, and the '/' behind it.
same_bytes-package :
    (a b p q : List ℕ)
    → package_of a ≡ some p
    → package_of b ≡ some q
    → length p ≡ length q
    → (same_bytes (suc (length p)) a b ≡ true) ↔ (p ≡ q)
same_bytes-package [] b p q ea eb l = absurd (let e = ea in cc)
same_bytes-package (c ∷ a) [] p q ea eb l = absurd (let e = eb in cc)
same_bytes-package (c ∷ a) (d ∷ b) p q ea eb l =
    same_bytes-extended c d a b (package_of a) (package_of b) p q ea eb l (same_bytes-package a b)

not_at_front : (b : List ℕ) → at_place b ≢ 47 → package_of b ≢ some []
not_at_front [] n e = absurd (let a = e in cc)
not_at_front (d ∷ b) n e = elim (Option-cases (package_of b)) [
  | inl z ↦ let e' : extended d none ≡ some [] = rw z at e in n (extended-none d [] e').0
  | inr (p, z) ↦
      let e' : some (d ∷ p) ≡ some [] = rw z at e in
      lengths p [] [] refl (some-injective _ _ e') refl
]

no_slashes : (a b : List ℕ) → last_slash a 0 0 ≡ 0 → last_slash b 0 0 ≡ 0 → same_package a b ≡ true
unfolding same_package
no_slashes a b x y = rw (same_package, x, y) refl

unequal_slashes : (a b : List ℕ) → last_slash a 0 0 ≢ last_slash b 0 0 → ¬ (same_package a b ≡ true)
unfolding same_package
unequal_slashes a b n h = ground arith

equal_slashes :
    (a b : List ℕ) (n : ℕ)
    → last_slash a 0 0 ≡ suc n
    → last_slash b 0 0 ≡ suc n
    → same_package a b ≡ same_bytes (suc (suc n)) a b
unfolding same_package
equal_slashes a b n x y =
    let e : suc n + 1 ≡ suc (suc n) = omega arith in
    let z : (suc n == 0) ≡ false = ground arith in
    rw (same_package, x, y, ==-refl (suc n), z, e) refl

slash_place :
    (a : List ℕ) {o : Option (List ℕ)} → package_of a ≡ o → last_slash a 0 0 ≡ slash_from o 0 0
slash_place a e = last_slash-package a 0 0 ∙ ap (λ o. slash_from o 0 0) e

-- The package is not empty.
long_package :
    (a p : List ℕ) → at_place a ≢ 47 → package_of a ≡ some p → (n : ℕ) × (length p ≡ suc n)
long_package a [] na x = absurd (not_at_front a na x)
long_package a (c ∷ p) na x = (length p, refl)

apart :
    (a b q : List ℕ)
    → at_place b ≢ 47
    → package_of a ≡ none
    → package_of b ≡ some q
    → last_slash a 0 0 ≢ last_slash b 0 0
apart a b q nb x y e =
    let (n, l) = long_package b q nb y in
    let u = slash_place a x in let v = slash_place b y in omega arith

both_slashes :
    (a b p q : List ℕ)
    → at_place a ≢ 47
    → package_of a ≡ some p
    → package_of b ≡ some q
    → last_slash a 0 0 ≡ 0 + length p
    → last_slash b 0 0 ≡ 0 + length q
    → (same_package a b ≡ true) ↔ (package_of a ≡ package_of b)
both_slashes a b p q na x y la lb =
    let (n, l) = long_package a p na x in
    elim (Bool-cases (length p == length q)) [
      | inl t ↦
          let same : length p ≡ length q = ground arith in
          let e = equal_slashes a b n (omega arith) (omega arith) in
          let bytes : (same_bytes (suc (suc n)) a b ≡ true) ↔ (p ≡ q) =
            subst (λ m. (same_bytes (suc m) a b ≡ true) ↔ (p ≡ q)) l
              (same_bytes-package a b p q x y same) in
          (
            λ h. x ∙ ap some (bytes.0 (sym e ∙ h)) ∙ sym y,
            λ h. e ∙ bytes.1 (some-injective _ _ (sym x ∙ h ∙ y)),
          )
      | inr f ↦
          let apart_slashes : last_slash a 0 0 ≢ last_slash b 0 0 = ground arith in
          (
            λ h. absurd (unequal_slashes a b apart_slashes h),
            λ h. let e = ap length (some-injective _ _ (sym x ∙ h ∙ y)) in absurd (ground arith),
          )
    ]

-- For the names of classes, none of which starts with '/': `same_package` holds if and only if the
-- names have the same in front of their last '/', or neither has a '/'.
pub same_package-package_of :
    (a b : List ℕ)
    → at_place a ≢ 47
    → at_place b ≢ 47
    → (same_package a b ≡ true) ↔ (package_of a ≡ package_of b)
same_package-package_of a b na nb = elim (Option-cases (package_of a)) [
  | inl x ↦ elim (Option-cases (package_of b)) [
    | inl y ↦ (λ _. x ∙ sym y, λ _. no_slashes a b (slash_place a x) (slash_place b y))
    | inr (q, y) ↦ (
      λ h. absurd (unequal_slashes a b (apart a b q nb x y) h),
      λ e. absurd (let z = sym x ∙ e ∙ y in cc),
    )
  ]
  | inr (p, x) ↦ elim (Option-cases (package_of b)) [
    | inl y ↦ (
      λ h. absurd (unequal_slashes a b (λ e. apart b a p na y x (sym e)) h),
      λ e. absurd (let z = sym y ∙ sym e ∙ x in cc),
    )
    | inr (q, y) ↦ both_slashes a b p q na x y (slash_place a x) (slash_place b y)
  ]
]
