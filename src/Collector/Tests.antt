-- ===== src/Collector/Tests.antt =====
-- The clearing of free chunks, weak references, and the marking of a concrete heap. The object at 1024 refers to the one at 1048, which refers to none.
use jelatine.Common.{
  ◌+◌, set, replicate, Bool, not, ℕ, ◌%◌, ◌≤◌, ◌<◌, ◌≡◌, ◌⊎◌, ◌↔◌, inl, inr, refl, true, ◌||◌, some,
  List, [], ◌∷◌, arith, ◌==◌, if◌then◌else◌,
}
use jelatine.Common.Links.{Links, Chain}
use jelatine.Common.Outcome.{ok, fault}
use jelatine.JString.Purge.{survivors}
use jelatine.Collector.WeakReferences.{
  cleared, weak_loop, purge_weakref_list, purge_weakref_list-survivors,
}
use jelatine.Header.{is_object, is_marked, get_class}
use jelatine.Memory.Chunks.{Bins, chunk, no_chunks}
use jelatine.Memory.Chunks.Sum
use jelatine.Memory.Chunks.Extent.{covered}
use jelatine.Collector.Clearing.{IsAligned, purge_bin, purge_bin-covered}
use jelatine.Memory.Heap.{Heap, bitmap_get}
use jelatine.Collector.{Memory, Class, Thread, tm_mark}
use jelatine.Collector.Objects.{has, unmarked, IsHeap, IsMarking, Reach}
use jelatine.Collector.Roots.{IsMapped, is_root, AreThreads, tm_mark-reachable}

abbrev one_field : ℕ → Class
one_field cl = record { access_flags = 0; elem_type = 0; ref_n = 1; nref_size = 0 }

abbrev memory : Memory
memory a = if (a == 1024) || (a == 1048) then 4098 else if a == 1016 then 1048 else 0

abbrev objects : List ℕ
objects = 1024 ∷ 1048 ∷ []

abbrev heap : Heap
heap = record {
  collect = true;
  size = 40;
  max_size = 40;
  start = 1016;
  end = 1056;
  perm = 1056;
  bitmap = 18 ∷ [];
  bins = no_chunks;
}

object_cases : (x : ℕ) → has objects x ≡ true → (x ≡ 1024) ⊎ (x ≡ 1048)
unfolding has
object_cases x h = ground arith

memory-IsHeap : IsHeap one_field objects memory
unfolding has is_object get_class
memory-IsHeap = record {
  object = λ x h. elim (object_cases x h) [ inl e ↦ rw e refl | inr e ↦ rw e refl ];
  word = λ x h. elim (object_cases x h) [ inl e ↦ rw e (omega arith) | inr e ↦ rw e (omega arith) ];
  nonnull = λ x h. elim (object_cases x h) [ inl e ↦ omega arith | inr e ↦ omega arith ];
  refs = λ x i h lt.
      let first : i ≡ 0 = omega arith in
      elim (object_cases x h) [
        | inl e ↦ rw (e, first) (inr refl)
        | inr e ↦ rw (e, first) (inl refl)
      ];
  apart = λ x i h lt.
      let first : i ≡ 0 = omega arith in
      elim (object_cases x h) [ inl e ↦ rw (e, first) refl | inr e ↦ rw (e, first) refl ];
  lengths = λ x h array. elim (object_cases x h) [ inl e ↦ rw e refl | inr e ↦ rw e refl ];
}

word_cases :
    (x : ℕ)
    → x % 8 ≡ 0
    → 1016 ≤ x
    → x < 1056
    → (x ≡ 1016) ⊎ (x ≡ 1024) ⊎ (x ≡ 1032) ⊎ (x ≡ 1040) ⊎ (x ≡ 1048)
word_cases x aligned lo hi = omega arith

heap-IsMapped : IsMapped objects heap
unfolding has bitmap_get
heap-IsMapped = record {
  bits = λ x aligned lo hi. elim (word_cases x aligned lo hi) [
    | inl e ↦ rw e refl
    | inr (inl e) ↦ rw e refl
    | inr (inr (inl e)) ↦ rw e refl
    | inr (inr (inr (inl e))) ↦ rw e refl
    | inr (inr (inr (inr e))) ↦ rw e refl
  ];
  words = λ x h. elim (object_cases x h) [
    | inl e ↦ rw e (refl, omega arith, omega arith)
    | inr e ↦ rw e (refl, omega arith, omega arith)
  ];
}

-- A thread that has the first object on its stack.
abbrev threads : List Thread
threads = record { obj = 0; roots = []; stack = 7 ∷ 1024 ∷ []; exception = 0 } ∷ []

tm_mark-reachable_example :
    (m : Memory) × (tm_mark 3 one_field heap threads memory ≡ some m)
    × IsMarking objects memory m
    × ((x : ℕ)
        → has objects x ≡ true
        → (is_marked (m x) ≡ true) ↔ (
            (r : ℕ) × (is_root threads r ≡ true)
            × (has objects r ≡ true)
            × Reach one_field memory r x))
unfolding AreThreads unmarked is_marked
tm_mark-reachable_example =
    tm_mark-reachable one_field objects memory memory-IsHeap 3 heap heap-IsMapped threads
      ((inl refl, inl refl), tt)
      (λ x h. elim (object_cases x h) [ inl e ↦ rw e refl | inr e ↦ rw e refl ]) (omega arith)

-- The weak references 8, 16 and 24 with the referents 80, 88 and 96; 8 and 88 are not marked.
abbrev marks : ℕ → Bool
marks a = not ((a == 8) || (a == 88))

abbrev weak_next : ℕ → ℕ
weak_next a = if a == 8 then 16 else if a == 16 then 24 else 0

abbrev referents : ℕ → ℕ
referents a = 72 + a

purge_weakref_list-survivors_example :
    (links : Links) × (after : ℕ → ℕ) × (purge_weakref_list 4 marks 8 weak_next referents
      ≡ ok (links, after))
    × Chain links.next links.head (survivors marks (8 ∷ 16 ∷ 24 ∷ []))
    × ((a : ℕ) → after a ≡ cleared marks (8 ∷ 16 ∷ 24 ∷ []) referents a)
purge_weakref_list-survivors_example =
    purge_weakref_list-survivors marks (8 ∷ 16 ∷ 24 ∷ []) 4 8 weak_next referents (omega arith)
      (omega arith) (omega arith) (λ a h. omega arith)

-- The reference 16 has been cleared, and it is still marked in the next collection, where the mark of
-- what it refers to is read at NULL.
cleared_before : purge_weakref_list 4 marks 8 weak_next (λ a. if a == 16 then 0 else 72 + a) ≡ fault
unfolding purge_weakref_list weak_loop
cleared_before = refl

-- A free chunk of three words at 64 and one of twenty words at 1024.
abbrev two_chunks : Bins
two_chunks = record { bin = set (replicate 16 []) 2 (64 ∷ []); large_bin = chunk 1024 160 ∷ [] }

two_chunks_are_valid : Sum.IsValid two_chunks
two_chunks_are_valid = record { entries = refl; nonnull = omega arith; large = omega arith }

chunks_at_words : IsAligned two_chunks
chunks_at_words = record { small = omega arith; large = omega arith }

purge_bin-covered_example :
    (covered 72 (purge_bin two_chunks (λ a. a)).0 ≡ 0)
    × ((purge_bin two_chunks (λ a. a)).1 72 ≡ (if covered 72 two_chunks == 0 then 72 else 0))
purge_bin-covered_example =
    purge_bin-covered 72 refl two_chunks (λ a. a) two_chunks_are_valid chunks_at_words
