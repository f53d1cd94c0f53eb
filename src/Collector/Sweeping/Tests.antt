-- ===== src/Collector/Sweeping/Tests.antt =====
-- The sweep of a concrete heap: of two objects, each with one reference, the first is marked.
use jelatine.Common.{ℕ, ◌≡◌, ◌⊎◌, inl, inr, refl, true, [], ◌∷◌, arith, ◌==◌, if◌then◌else◌}
use jelatine.Util.{size_ceil}
use jelatine.Header.{is_object}
use jelatine.Memory.Chunks.{no_chunks}
use jelatine.Memory.Chunks.Extent.{no_chunks-IsValid, no_chunks-covered}
use jelatine.Memory.Heap.{Heap}
use jelatine.Memory.Heap.Layout
use jelatine.Collector.{Memory, Class}
use jelatine.Collector.Sweeping.{nref_size, ref_n}
use jelatine.Collector.Sweeping.Layout.{IsLaid}
use jelatine.Collector.Sweeping.Extents.{Result, sweep-covered}

abbrev one_field : ℕ → Class
one_field cl = record { access_flags = 0; elem_type = 0; ref_n = 1; nref_size = 0 }

abbrev memory : Memory
memory a = if a == 1024 then 4099 else if a == 1016 then 1048 else if a == 1048 then 4098 else 0

abbrev heap : Heap
heap = record {
  collect = true;
  size = 48;
  max_size = 64;
  start = 1016;
  end = 1064;
  perm = 1080;
  bitmap = 18 ∷ [];
  bins = no_chunks;
}

heap-IsValid : Layout.IsValid heap
heap-IsValid = record {
  nonnull = omega arith;
  start_end = omega arith;
  end_perm = omega arith;
  perm_top = omega arith;
  top = omega arith;
  end_words = refl;
  perm_words = refl;
  size = refl;
  bits = omega arith;
  bins = no_chunks-IsValid;
  inside = λ x. omega (arith, no_chunks-covered x);
}

memory-IsLaid : IsLaid one_field memory 1016 1016 (1024 ∷ 1048 ∷ []) 1064
unfolding IsLaid ref_n nref_size is_object size_ceil
memory-IsLaid = (
  (omega arith, omega arith, refl),
  (λ i h. let z : i ≡ 0 = omega arith in rw z refl),
  omega arith,
  omega arith,
  (
    (omega arith, omega arith, refl),
    (λ i h.
        let z : (i ≡ 0) ⊎ (i ≡ 1) = omega arith in
        elim z [ inl e ↦ rw e refl | inr e ↦ rw e refl ]),
    omega arith,
    omega arith,
    (omega arith, refl, λ i h. let z : i ≡ 0 = omega arith in rw z refl),
  ),
)

sweep-covered_example :
    Result one_field memory heap (1024 ∷ 1048 ∷ []) heap-IsValid no_chunks-covered 9 16
sweep-covered_example =
    sweep-covered one_field memory heap (1024 ∷ 1048 ∷ []) heap-IsValid no_chunks-covered 16 9
      memory-IsLaid refl (omega arith) (omega arith) (omega arith)
