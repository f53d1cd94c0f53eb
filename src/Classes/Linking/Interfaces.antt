-- ===== src/Classes/Linking/Interfaces.antt =====
-- What `load_interfaces` of src/jelatine/loader.c collects.
use jelatine.Common.{
  ℕ, ◌≡◌, refl, ◌≢◌, Bool, true, false, ◌||◌, Option, none, some, List, [], ◌∷◌, ◌++◌, ◌==◌, All,
  Bool-cases, Option-cases, ap, arith, inl, inr, if◌then◌else◌,
}
use jelatine.Classes.Hierarchy.{Store, class_is_interface, im_is_present, im_add, im_add_all}
use jelatine.Classes.Linking.{Collection, load_declared, load_interfaces}

im_is_present-append :
    (xs : List ℕ) (c d : ℕ) → im_is_present (xs ++ (c ∷ [])) d ≡ (im_is_present xs d || (c == d))
unfolding im_is_present
im_is_present-append [] c d = ground arith
im_is_present-append (x ∷ xs) c d = ground (arith, im_is_present-append xs c d)

pub im_is_present-nil : (d : ℕ) → im_is_present [] d ≡ false
unfolding im_is_present
im_is_present-nil d = refl

im_is_present-eq :
    (xs : List ℕ) (c d : ℕ)
    → im_is_present xs c ≡ true
    → (c == d) ≡ true
    → im_is_present xs d ≡ true
im_is_present-eq xs c d h e = let e' : c ≡ d = ground arith in cc

im_is_present-im_add :
    (im : List ℕ) (c d : ℕ) → im_is_present (im_add im c) d ≡ (im_is_present im d || (c == d))
unfolding im_add
im_is_present-im_add im c d = ground (arith, im_is_present-append im c d, im_is_present-eq im c d)

im_is_present-im_add_all :
    (im more : List ℕ) (d : ℕ)
    → im_is_present (im_add_all im more) d ≡ (im_is_present im d || im_is_present more d)
unfolding im_add_all im_is_present
im_is_present-im_add_all im [] d = ground arith
im_is_present-im_add_all im (i ∷ more) d =
    ground (arith, im_is_present-im_add_all (im_add im i) more d, im_is_present-im_add im i d)

-- The interfaces that the structure at an address holds.
abbrev pub entries : Option (List ℕ) → List ℕ
entries none = []
entries (some im) = im

abbrev pub managed : Store → ℕ → List ℕ
managed s c = entries (s c).interface_manager

-- Whether an interface is one of the given or held by one of the given.
abbrev pub reached : Store → List ℕ → ℕ → Bool
reached s [] d = false
reached s (i ∷ rest) d = ((i == d) || im_is_present (managed s i) d) || reached s rest d

-- An interface, and not an array of interfaces.
abbrev pub Managed : Store → ℕ → Type 0
Managed s i = (class_is_interface (s i) ≡ true) × ((s i).interface_manager ≢ none)

collected-injective : {a b : List ℕ} → Collection.collected a ≡ Collection.collected b → a ≡ b
collected-injective h = cc

load_declared-reached :
    (s : Store) (im declared im' : List ℕ)
    → load_declared s im declared ≡ Collection.collected im'
    → (All (Managed s) declared)
      × ((d : ℕ) → im_is_present im' d ≡ (im_is_present im d || reached s declared d))
unfolding load_declared
load_declared-reached s im [] im' h =
    let e : im ≡ im' = collected-injective h in
    (tt, λ d. ground (arith, ap (λ t. im_is_present t d) e))
load_declared-reached s im (i ∷ rest) im' h = elim (Bool-cases (class_is_interface (s i))) [
  | inr f ↦
      let h' : Collection.thrown ≡ Collection.collected im' = rw (load_declared, f) at h in
      absurd (let b = h' in cc)
  | inl t ↦ elim (Option-cases ((s i).interface_manager)) [
    | inl e ↦
        let h' : Collection.null_pointer ≡ Collection.collected im' =
          rw (load_declared, t, e) at h in
        absurd (let b = h' in cc)
    | inr (inherited, e) ↦
        let h' : load_declared s (im_add_all (im_add im i) inherited) rest
            ≡ Collection.collected im' =
          rw (load_declared, t, e) at h in
        let ih = load_declared-reached s (im_add_all (im_add im i) inherited) rest im' h' in
        let some_ne_none : (s i).interface_manager ≢ none = λ n. let a = n in cc in
        let held : managed s i ≡ inherited = ap entries e in
        (
          ((t, some_ne_none), ih.0),
          λ d. ground (
            arith,
            ih.1 d,
            im_is_present-im_add_all (im_add im i) inherited d,
            im_is_present-im_add im i d,
            ap (λ l. im_is_present l d) held,
          ),
        )
  ]
]

-- The parent's interfaces, where there is a parent.
abbrev pub inherited : Store → ℕ → List ℕ
inherited s parent = if parent == 0 then [] else managed s parent

-- The interfaces collected are the parent's, and those in the class-file with what they hold.
pub load_interfaces-reached :
    (s : Store) (parent : ℕ) (declared im : List ℕ)
    → load_interfaces s parent declared ≡ Collection.collected im
    → (All (Managed s) declared)
      × ((d : ℕ)
          → im_is_present im d ≡ (im_is_present (inherited s parent) d || reached s declared d))
unfolding load_interfaces
load_interfaces-reached s parent declared im h = elim (Bool-cases (parent == 0)) [
  | inl t ↦
      let h' : load_declared s [] declared ≡ Collection.collected im = rw t at h in
      rw t (load_declared-reached s [] declared im h')
  | inr f ↦ elim (Option-cases ((s parent).interface_manager)) [
    | inl e ↦
        let h' : Collection.null_pointer ≡ Collection.collected im = rw (f, e) at h in
        absurd (let b = h' in cc)
    | inr (held, e) ↦
        let h' : load_declared s (im_add_all [] held) declared ≡ Collection.collected im =
          rw (f, e) at h in
        let r = load_declared-reached s (im_add_all [] held) declared im h' in
        rw f (
          r.0,
          λ d. ground (
            arith,
            r.1 d,
            im_is_present-im_add_all [] held d,
            im_is_present-nil d,
            ap (λ o. im_is_present (entries o) d) e,
          ),
        )
  ]
]
