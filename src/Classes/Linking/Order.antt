-- ===== src/Classes/Linking/Order.antt =====
-- The classes in the order in which `load_class` of src/jelatine/loader.c links them: what a class
-- refers to has been linked before it, and is not changed any more. That java.lang.Object is the only
-- class without a parent is a hypothesis on the class-files, which the code does not check.
use jelatine.Common.{
  ℕ, suc, ◌<◌, ◌≤◌, ◌≡◌, refl, ◌≢◌, inl, inr, Bool, true, false, List, [], ◌∷◌, ◌==◌, if◌then◌else◌,
  All, Bool-cases, arith, ap, ◌∙◌,
}
use jelatine.Classes.Hierarchy.{Class, Store}
use jelatine.Classes.Linking.{Request, Loaded, load_class}
use jelatine.Classes.Linking.Frame.{references, Agree, load_class-Agree}

-- The classes linked so far: their structures, what each was loaded from, and its turn in the order
-- of linking, which is 0 for the addresses where no class is linked.
pub record Hierarchy : Type 0 where
  pub classes : Store
  pub requests : ℕ → Request
  pub turn : ℕ → ℕ
  pub count : ℕ

-- A reference to a class that was linked before the turn `n`.
abbrev pub Before : Hierarchy → ℕ → ℕ → Type 0
Before h n r = (h.turn r ≢ 0) × (h.turn r < n)

-- A linked class is what `load_class` makes of its request, refers to classes linked before it, and
-- has a parent unless it is java.lang.Object.
abbrev pub IsLoaded : Bool → ℕ → Hierarchy → ℕ → Type 0
IsLoaded fp object h c =
    (load_class fp h.classes object (h.requests c) ≡ Loaded.loaded (h.classes c))
    × All (Before h (h.turn c)) (references (h.requests c))
    × ((h.classes c).parent ≡ 0 → c ≡ object)
    × (h.turn c ≤ h.count)

pub record IsHierarchy (fp : Bool) (object : ℕ) (h : Hierarchy) : Type 0 where
  pub null : h.turn 0 ≡ 0
  pub root : h.turn object ≡ 1
  pub top : (h.classes object).parent ≡ 0
  pub linked : (c : ℕ) → h.turn c ≢ 0 → IsLoaded fp object h c

-- The class at `c` has been linked next.
abbrev pub link : Hierarchy → ℕ → Request → Class → Hierarchy
link h c request cl = record {
  classes = λ a. if a == c then cl else h.classes a;
  requests = λ a. if a == c then request else h.requests a;
  turn = λ a. if a == c then suc h.count else h.turn a;
  count = suc h.count;
}

-- How the hierarchy grows: java.lang.Object comes first, and then each class behind those that are
-- resolved for it.
pub data Reach (fp : Bool) (object : ℕ) : Hierarchy → Type 0 where
  start :
      (h : Hierarchy) (request : Request) (cl : Class)
      → ((a : ℕ) → h.turn a ≡ 0)
      → h.count ≡ 0
      → object ≢ 0
      → references request ≡ []
      → load_class fp h.classes object request ≡ Loaded.loaded cl
      → cl.parent ≡ 0
      → Reach fp object (link h object request cl)
  next :
      {h : Hierarchy}
      → Reach fp object h
      → (c : ℕ) (request : Request) (cl : Class) → c ≢ 0
      → h.turn c ≡ 0
      → All (Before h (suc h.count)) (references request)
      → load_class fp h.classes object request ≡ Loaded.loaded cl
      → Reach fp object (link h c request cl)

-- java.lang.Object is the only linked class without a parent.
abbrev pub OneRoot : ℕ → Hierarchy → Type 0
OneRoot object h = (c : ℕ) → h.turn c ≢ 0 → (h.classes c).parent ≡ 0 → c ≡ object

module _ (h : Hierarchy) (c : ℕ) (request : Request) (cl : Class) (fresh_c : h.turn c ≡ 0) where
  Before-Agree :
      (n : ℕ) (rs : List ℕ) → All (Before h n) rs → Agree (link h c request cl).classes h.classes rs
  Before-Agree n [] b = tt
  Before-Agree n (r ∷ rs) b =
      let away : r ≢ c = λ e. b.0.0 (ap h.turn e ∙ fresh_c) in (ground arith, Before-Agree n rs b.1)

  Before-link :
      (n m : ℕ) (rs : List ℕ)
      → n ≤ m
      → All (Before h n) rs
      → All (Before (link h c request cl) m) rs
  Before-link n m [] l b = tt
  Before-link n m (r ∷ rs) l b =
      let away : r ≢ c = λ e. b.0.0 (ap h.turn e ∙ fresh_c) in
      let b0 = b.0.0 in let b1 = b.0.1 in (ground arith, Before-link n m rs l b.1)

  -- The class linked last.
  link-new :
      (fp : Bool) (object : ℕ)
      → All (Before h (suc h.count)) (references request)
      → load_class fp h.classes object request ≡ Loaded.loaded cl
      → (cl.parent ≡ 0 → c ≡ object)
      → IsLoaded fp object (link h c request cl) c
  link-new fp object b loads root =
      let e : (c == c) ≡ true = ground arith in
      rw e (
        load_class-Agree fp _ _ object request (Before-Agree (suc h.count) (references request) b)
            ∙ loads,
        Before-link (suc h.count) (suc h.count) (references request) (omega arith) b,
        root,
        omega arith,
      )

  -- A class linked before.
  link-old :
      (fp : Bool) (object a : ℕ)
      → h.turn a ≢ 0
      → IsLoaded fp object h a
      → IsLoaded fp object (link h c request cl) a
  link-old fp object a old (loads, b, root, l) =
      let away : a ≢ c = λ e. old (ap h.turn e ∙ fresh_c) in
      let e : (a == c) ≡ false = ground arith in
      rw e (
        load_class-Agree fp _ _ object (h.requests a)
              (Before-Agree (h.turn a) (references (h.requests a)) b)
            ∙ loads,
        Before-link (h.turn a) (h.turn a) (references (h.requests a)) (omega arith) b,
        root,
        omega arith,
      )

start-IsHierarchy :
    (fp : Bool) (object : ℕ) (h : Hierarchy) (request : Request) (cl : Class)
    → ((a : ℕ) → h.turn a ≡ 0)
    → h.count ≡ 0
    → object ≢ 0
    → references request ≡ []
    → load_class fp h.classes object request ≡ Loaded.loaded cl
    → cl.parent ≡ 0
    → IsHierarchy fp object (link h object request cl)
start-IsHierarchy fp object h request cl none_yet n o refs loads top = record {
  null = ground (arith, none_yet 0);
  root = ground arith;
  top = ground arith;
  linked = λ a old. elim (Bool-cases (a == object)) [
    | inl y ↦
        let e : a ≡ object = ground arith in
        let b : All (Before h (suc h.count)) (references request) = rw refs tt in
        rw e (link-new h object request cl (none_yet object) fp object b loads (λ p. refl))
    | inr f ↦ absurd (ground (arith, none_yet a))
  ];
}

next-IsHierarchy :
    (fp : Bool) (object : ℕ) (h : Hierarchy) (c : ℕ) (request : Request) (cl : Class)
    → IsHierarchy fp object h
    → c ≢ 0
    → h.turn c ≡ 0
    → All (Before h (suc h.count)) (references request)
    → load_class fp h.classes object request ≡ Loaded.loaded cl
    → (cl.parent ≡ 0 → c ≡ object)
    → IsHierarchy fp object (link h c request cl)
next-IsHierarchy fp object h c request cl w nonzero fresh_c b loads below =
    let null = w.null in
    let root = w.root in
    let top = w.top in
    let away : object ≢ c = λ e. let t : h.turn object ≡ 0 = ap h.turn e ∙ fresh_c in omega arith in
    record {
      null = ground arith;
      root = ground arith;
      top = ground arith;
      linked = λ a old. elim (Bool-cases (a == c)) [
        | inl y ↦
            let e : a ≡ c = ground arith in
            rw e (link-new h c request cl fresh_c fp object b loads below)
        | inr f ↦
            let before : h.turn a ≢ 0 = ground arith in
            link-old h c request cl fresh_c fp object a before (w.linked a before)
      ];
    }

OneRoot-before :
    (object : ℕ) (h : Hierarchy) (c : ℕ) (request : Request) (cl : Class)
    → h.turn c ≡ 0
    → OneRoot object (link h c request cl)
    → OneRoot object h × (cl.parent ≡ 0 → c ≡ object)
OneRoot-before object h c request cl fresh_c one_root =
    let e : (c == c) ≡ true = ground arith in
    (
      λ a old top.
          let away : a ≢ c = λ s. old (ap h.turn s ∙ fresh_c) in
          let n : (a == c) ≡ false = ground arith in one_root a (rw n old) (rw n top),
      λ top. one_root c (rw e (omega arith)) (rw e top),
    )

-- In a hierarchy that linking reaches and in which only java.lang.Object has no parent, each linked class
-- is what `load_class` makes of its request from the classes as they are now, and all classes that were
-- resolved for it have been linked before it.
pub Reach-IsHierarchy :
    (fp : Bool) (object : ℕ) (h : Hierarchy)
    → Reach fp object h
    → OneRoot object h
    → IsHierarchy fp object h
Reach-IsHierarchy fp object _ (start h request cl none_yet n o refs loads top) one_root =
    start-IsHierarchy fp object h request cl none_yet n o refs loads top
Reach-IsHierarchy fp object _ (next {h} r c request cl nonzero fresh_c b loads) one_root =
    let (before, below) = OneRoot-before object h c request cl fresh_c one_root in
    next-IsHierarchy fp object h c request cl (Reach-IsHierarchy fp object h r before) nonzero
      fresh_c b loads below
